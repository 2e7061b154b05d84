-- ===== src/Queue/Utils.antt =====
-- QueueExperiments/utils.cpp. `dev_random_data` has the text of ConnectionExperiments/utils.cpp. A
-- store behind the end of an array gives none.
pub mod Bounds
mod Tests
use rdma_project.Common.{ℕ, zero, suc, ◌%◌, ◌^◌, List, [], ◌∷◌, Option, none, some}
use rdma_project.Host.{Kernel, Cmd}
use rdma_project.Utils
use rdma_project.Utils.Letters.{store}

-- The `for` of `random_data`, with `n` rounds left from index `i` on. The length is an `int` here, so
-- that `i` is never more than an `int` holds.
unfoldable pub fill : (ℕ → ℕ) → ℕ → (n i : ℕ) → List ℕ → Option (List ℕ)
fill draw drawn zero i s = some s
fill draw drawn (suc n) i s = elim (store i (draw drawn % 2 ^ 8) s) [
  | none ↦ none
  | some t ↦ fill draw (suc drawn) n (suc i) t
]

-- The NUL goes behind the `len` characters.
unfoldable pub random_data : (ℕ → ℕ) → ℕ → List ℕ → ℕ → Option (List ℕ)
random_data draw drawn s len = elim (fill draw drawn len 0 s) [
  | none ↦ none
  | some t ↦ store len 0 t
]

-- `new char[len]` is an array of `len` characters of any value: it is a parameter.
unfoldable pub generate_random_data : (ℕ → ℕ) → ℕ → (new_array : ℕ → List ℕ) → ℕ → Option (List ℕ)
generate_random_data draw drawn new_array len = random_data draw drawn (new_array len) len

-- `n` ints, each the low 32 bits of a draw of `lrand48`.
unfoldable pub random_int_vector : (ℕ → ℕ) → ℕ → ℕ → List ℕ
random_int_vector draw drawn zero = []
random_int_vector draw drawn (suc n) = draw drawn % 2 ^ 32 ∷ random_int_vector draw (suc drawn) n

unfoldable pub dev_random_data : Kernel → List ℕ → ℕ → Cmd (List ℕ)
dev_random_data K buffer size = Utils.dev_random_data K buffer size
