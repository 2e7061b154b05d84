-- ===== src/Queue/Cards.antt =====
-- QueueExperiments/utils.cpp: `get_ib_card_address`, which looks for names that begin with `ib`.
pub mod First
use rdma_project.Common.{
  ℕ, List, [], ◌∷◌, Bool, true, false, Option, none, some, ◌==◌, if◌then◌else◌,
}
use rdma_project.Host.Ints.{int_minus_one}
use rdma_project.Utils.Cards.{Interface, char_at}

-- The condition on the name; `&&` reads no further than it must.
unfoldable pub is_ib_card : List ℕ → Option Bool
is_ib_card name = elim (char_at name 0) [
  | none ↦ none
  | some c ↦
      if c == b'i'
      then elim (char_at name 1) [ none ↦ none | some d ↦ some (d == b'b') ]
      else some false
]

module _ {A : Type 0} where
  -- The `for`: whether a card was found, and `*out_address`.
  unfoldable pub find_card : List (Interface A) → Bool → A → Option (Bool × A)
  find_card [] found out = some (found, out)
  find_card (card ∷ cards) true out = find_card cards true out
  find_card (card ∷ cards) false out = elim (is_ib_card card.ifa_name) [
    | none ↦ none
    | some true ↦ find_card cards true card.address
    | some false ↦ find_card cards false out
  ]

  -- The status and `*out_address`.
  unfoldable pub get_ib_card_address : Option (List (Interface A)) → A → Option (ℕ × A)
  get_ib_card_address none out = some (int_minus_one, out)
  get_ib_card_address (some cards) out = elim (find_card cards false out) [
    | none ↦ none
    | some (true, address) ↦ some (0, address)
    | some (false, address) ↦ some (int_minus_one, address)
  ]
