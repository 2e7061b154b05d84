-- ===== src/Utils/Cards.antt =====
-- ConnectionExperiments/utils.cpp: `get_ib_card_address`. What `getifaddrs` gives is a parameter: an
-- error, or the list of the interfaces. A name is the array of its characters, the NUL included.
pub mod First
use rdma_project.Common.{
  ℕ, zero, suc, List, [], ◌∷◌, Bool, true, false, Option, none, some, ◌==◌, if◌then◌else◌,
}
use rdma_project.Host.Ints.{int_minus_one}

pub record Interface (A : Type 0) : Type 0 where
  pub ifa_name : List ℕ
  pub address : A

-- `name[i]`; none behind the end of the array.
unfoldable pub char_at : List ℕ → ℕ → Option ℕ
char_at [] i = none
char_at (c ∷ cs) zero = some c
char_at (c ∷ cs) (suc i) = char_at cs i

-- The condition on the name; `&&` reads no further than it must.
unfoldable pub is_ib_card : List ℕ → Option Bool
is_ib_card name = elim (char_at name 2) [
  | none ↦ none
  | some c ↦ if c == 0 then some false else elim (char_at name 3) [
    | none ↦ none
    | some d ↦
        if d == b'1'
        then elim (char_at name 4) [ none ↦ none | some e ↦ some (e == b'0') ]
        else some false
  ]
]

module _ {A : Type 0} where
  -- The `for`: whether a card was found, and `*out_address`. Once one is found no name is read.
  unfoldable pub find_card : List (Interface A) → Bool → A → Option (Bool × A)
  find_card [] found out = some (found, out)
  find_card (card ∷ cards) true out = find_card cards true out
  find_card (card ∷ cards) false out = elim (is_ib_card card.ifa_name) [
    | none ↦ none
    | some true ↦ find_card cards true card.address
    | some false ↦ find_card cards false out
  ]

  -- The status and `*out_address`. An error of `getifaddrs` is -1.
  unfoldable pub get_ib_card_address : Option (List (Interface A)) → A → Option (ℕ × A)
  get_ib_card_address none out = some (int_minus_one, out)
  get_ib_card_address (some cards) out = elim (find_card cards false out) [
    | none ↦ none
    | some (true, address) ↦ some (0, address)
    | some (false, address) ↦ some (int_minus_one, address)
  ]
