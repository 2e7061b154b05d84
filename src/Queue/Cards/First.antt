-- ===== src/Queue/Cards/First.antt =====
-- Which interface the queue experiments take.
use rdma_project.Common.{
  ℕ, ◌≢◌, arith, ap, subst, sym, ◌∙◌, ◌≡◌, refl, List, [], ◌∷◌, ◌++◌, true, false, some, All,
}
use rdma_project.Utils.Cards.{Interface, char_at}
use rdma_project.Queue.Cards.{is_ib_card, find_card, get_ib_card_address}

abbrev pub HasIb : List ℕ → Type 0
HasIb (c ∷ d ∷ _) = (c ≡ b'i') × (d ≡ b'b')
HasIb _ = ⊥

-- No NUL but the one at the end.
abbrev pub IsName : List ℕ → Type 0
IsName name = (chars : List ℕ) × (name ≡ chars ++ 0 ∷ []) × All (λ c. c ≢ 0) chars

is_ib_card-HasIb : (name : List ℕ) → HasIb name → is_ib_card name ≡ some true
unfolding is_ib_card char_at
is_ib_card-HasIb [] ib = absurd ib
is_ib_card-HasIb (c ∷ []) ib = absurd ib
is_ib_card-HasIb (c ∷ d ∷ more) ib = ground (arith, ib.0, ib.1)

is_ib_card_other :
    (chars : List ℕ) → ¬ HasIb (chars ++ 0 ∷ []) → is_ib_card (chars ++ 0 ∷ []) ≡ some false
unfolding is_ib_card char_at
is_ib_card_other [] other = refl
is_ib_card_other (c ∷ []) other = ground arith
is_ib_card_other (c ∷ d ∷ more) other = ground (arith, other)

is_ib_card-false : (name : List ℕ) → IsName name → ¬ HasIb name → is_ib_card name ≡ some false
is_ib_card-false name (chars, e, sized) other =
    ap is_ib_card e ∙ is_ib_card_other chars (λ ib. other (subst HasIb (sym e) ib))

module _ {A : Type 0} where
  abbrev pub IsOther : Interface A → Type 0
  IsOther card = IsName card.ifa_name × ¬ HasIb card.ifa_name

  found_lem : (cards : List (Interface A)) (out : A) → find_card cards true out ≡ some (true, out)
  unfolding find_card
  found_lem [] out = refl
  found_lem (card ∷ cards) out = found_lem cards out

  first_lem :
      (before : List (Interface A)) (card : Interface A) (after : List (Interface A)) (out : A)
      → All IsOther before
      → HasIb card.ifa_name
      → find_card (before ++ card ∷ after) false out ≡ some (true, card.address)
  unfolding find_card
  first_lem [] card after out others is =
      rw (is_ib_card-HasIb card.ifa_name is, find_card) (found_lem after card.address)
  first_lem (other ∷ before) card after out others is =
      rw (is_ib_card-false other.ifa_name others.0.0 others.0.1, find_card)
        (first_lem before card after out others.1 is)

  -- The address is that of the first interface whose name begins with `ib`, whatever the names behind
  -- it are, and the status is 0; the names before it end with a NUL.
  pub get_ib_card_address_lem :
      (before : List (Interface A)) (card : Interface A) (after : List (Interface A)) (out : A)
      → All IsOther before
      → HasIb card.ifa_name
      → get_ib_card_address (some (before ++ card ∷ after)) out ≡ some (0, card.address)
  unfolding get_ib_card_address
  get_ib_card_address_lem before card after out others is =
      rw (first_lem before card after out others is, get_ib_card_address) refl
