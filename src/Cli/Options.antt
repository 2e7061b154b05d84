-- ===== src/Cli/Options.antt =====
-- What an option's value is.
use text.Mathlib.TextEquality.{eq_iff}
use text.Mathlib.TextPositions.{eq_refl}
use Prim.Native.String.{String}
use rdma_project.Common.{◌≡◌, ◌≢◌, refl, List, [], ◌∷◌, ◌++◌, none, some, arith, All}
use rdma_project.Cli.{get_arg_value, next_arg}

-- No argument is `name`.
abbrev pub Absent : String → List String → Type 0
Absent name args = All (λ arg. arg ≢ name) args

-- The first argument that is the option's name decides, when one follows it: that is the value, also
-- if it looks like an option.
pub get_arg_value-first :
    (before after : List String) (name value default_value : String)
    → Absent name before
    → get_arg_value (before ++ name ∷ value ∷ after) name default_value ≡ some value
unfolding get_arg_value next_arg
get_arg_value-first [] after name value default_value absent = rw (eq_refl name) refl
get_arg_value-first (arg ∷ before) after name value default_value absent =
    ground
      (arith, eq_iff arg name, get_arg_value-first before after name value default_value absent.1)

-- An option whose name stands only at the end of the arguments has no value, not even its default.
pub get_arg_value_last :
    (before : List String) (name default_value : String)
    → Absent name before
    → get_arg_value (before ++ name ∷ []) name default_value ≡ none
unfolding get_arg_value next_arg
get_arg_value_last [] name default_value absent = rw (eq_refl name) refl
get_arg_value_last (arg ∷ before) name default_value absent =
    ground (arith, eq_iff arg name, get_arg_value_last before name default_value absent.1)

-- An option that is not given has its default.
pub get_arg_value_default :
    (args : List String) (name default_value : String)
    → Absent name args
    → get_arg_value args name default_value ≡ some default_value
unfolding get_arg_value
get_arg_value_default [] name default_value absent = refl
get_arg_value_default (arg ∷ args) name default_value absent =
    ground (arith, eq_iff arg name, get_arg_value_default args name default_value absent.1)
