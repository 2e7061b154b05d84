-- ===== src/Utils/Cards/First.antt =====
-- Which interface `get_ib_card_address` takes.
use rdma_project.Common.{
  ℕ, ◌≤◌, ◌≢◌, length, arith, sym, subst, ap, ◌∙◌, ◌≡◌, refl, List, [], ◌∷◌, ◌++◌, true, false,
  some, All,
}
use rdma_project.Host.Ints.{int_minus_one}
use rdma_project.Utils.Cards.{Interface, char_at, is_ib_card, find_card, get_ib_card_address}

-- The fourth and the fifth character are `1` and `0`.
abbrev pub HasTen : List ℕ → Type 0
HasTen (_ ∷ _ ∷ _ ∷ d ∷ e ∷ _) = (d ≡ b'1') × (e ≡ b'0')
HasTen _ = ⊥

-- Two characters or more, and the NUL at the end.
abbrev pub IsName : List ℕ → Type 0
IsName name =
    (chars : List ℕ) × (name ≡ chars ++ 0 ∷ []) × All (λ c. c ≢ 0) chars × (2 ≤ length chars)

-- The code's test of the characters of a name.
is_ib_card_ten :
    (chars : List ℕ)
    → All (λ c. c ≢ 0) chars
    → 2 ≤ length chars
    → HasTen (chars ++ 0 ∷ [])
    → is_ib_card (chars ++ 0 ∷ []) ≡ some true
unfolding is_ib_card char_at
is_ib_card_ten [] sized long ten = absurd (omega arith)
is_ib_card_ten (a ∷ []) sized long ten = absurd (omega arith)
is_ib_card_ten (a ∷ b ∷ []) sized long ten = absurd ten
is_ib_card_ten (a ∷ b ∷ c ∷ []) sized long ten = absurd ten
is_ib_card_ten (a ∷ b ∷ c ∷ d ∷ []) sized long ten = absurd (omega (arith, ten.1))
is_ib_card_ten (a ∷ b ∷ c ∷ d ∷ e ∷ more) sized long ten = ground (arith, sized.1.1.0, ten.0, ten.1)

is_ib_card_other :
    (chars : List ℕ)
    → All (λ c. c ≢ 0) chars
    → 2 ≤ length chars
    → ¬ HasTen (chars ++ 0 ∷ [])
    → is_ib_card (chars ++ 0 ∷ []) ≡ some false
unfolding is_ib_card char_at
is_ib_card_other [] sized long other = absurd (omega arith)
is_ib_card_other (a ∷ []) sized long other = absurd (omega arith)
is_ib_card_other (a ∷ b ∷ []) sized long other = refl
is_ib_card_other (a ∷ b ∷ c ∷ []) sized long other = ground arith
is_ib_card_other (a ∷ b ∷ c ∷ d ∷ []) sized long other = ground arith
is_ib_card_other (a ∷ b ∷ c ∷ d ∷ e ∷ more) sized long other = ground (arith, other)

-- The code's test, for a name.
is_ib_card-HasTen : (name : List ℕ) → IsName name → HasTen name → is_ib_card name ≡ some true
is_ib_card-HasTen name (chars, e, sized, long) ten =
    ap is_ib_card e ∙ is_ib_card_ten chars sized long (subst HasTen e ten)

is_ib_card-false : (name : List ℕ) → IsName name → ¬ HasTen name → is_ib_card name ≡ some false
is_ib_card-false name (chars, e, sized, long) other =
    ap is_ib_card e ∙ is_ib_card_other chars sized long (λ ten. other (subst HasTen (sym e) ten))

module _ {A : Type 0} where
  abbrev pub IsCard : Interface A → Type 0
  IsCard card = IsName card.ifa_name × HasTen card.ifa_name

  abbrev pub IsOther : Interface A → Type 0
  IsOther card = IsName card.ifa_name × ¬ HasTen card.ifa_name

  find_card_found :
      (cards : List (Interface A)) (out : A) → find_card cards true out ≡ some (true, out)
  unfolding find_card
  find_card_found [] out = refl
  find_card_found (card ∷ cards) out = find_card_found cards out

  find_card_first :
      (before : List (Interface A)) (card : Interface A) (after : List (Interface A)) (out : A)
      → All IsOther before
      → IsCard card
      → find_card (before ++ card ∷ after) false out ≡ some (true, card.address)
  unfolding find_card
  find_card_first [] card after out others is =
      rw (is_ib_card-HasTen card.ifa_name is.0 is.1, find_card) (find_card_found after card.address)
  find_card_first (other ∷ before) card after out others is =
      rw (is_ib_card-false other.ifa_name others.0.0 others.0.1, find_card)
        (find_card_first before card after out others.1 is)

  find_card_none :
      (cards : List (Interface A)) (out : A)
      → All IsOther cards
      → find_card cards false out ≡ some (false, out)
  unfolding find_card
  find_card_none [] out others = refl
  find_card_none (card ∷ cards) out others =
      rw (is_ib_card-false card.ifa_name others.0.0 others.0.1, find_card)
        (find_card_none cards out others.1)

  -- For names of two characters or more with a NUL at the end: when some interfaces have names in which
  -- the fourth and the fifth characters are not `1` and `0`, and the next has a name in which they are,
  -- then the address is that of the next, whatever the names behind it are, and the status is 0.
  pub get_ib_card_address_first :
      (before : List (Interface A)) (card : Interface A) (after : List (Interface A)) (out : A)
      → All IsOther before
      → IsCard card
      → get_ib_card_address (some (before ++ card ∷ after)) out ≡ some (0, card.address)
  unfolding get_ib_card_address
  get_ib_card_address_first before card after out others is =
      rw (find_card_first before card after out others is, get_ib_card_address) refl

  -- For names of two characters or more with a NUL at the end: when there is no interface with a name
  -- in which the fourth and the fifth characters are `1` and `0`, the status is -1 and the address
  -- stays as it was.
  pub get_ib_card_address_none :
      (cards : List (Interface A)) (out : A)
      → All IsOther cards
      → get_ib_card_address (some cards) out ≡ some (int_minus_one, out)
  unfolding get_ib_card_address
  get_ib_card_address_none cards out others =
      rw (find_card_none cards out others, get_ib_card_address) refl
