-- ===== src/Utils/Tests.antt =====
-- Concrete arrays and interfaces.
use rdma_project.Common.{arith, ℕ, ◌+◌, ◌≡◌, refl, [], ◌∷◌, some}
use rdma_project.Host.Ints.{int_minus_one}
use rdma_project.Utils.Letters.{wrote, random_data}
use rdma_project.Utils.Letters.Bounds.{random_data-letters}
use rdma_project.Utils.Cards.{Interface, get_ib_card_address}
use rdma_project.Utils.Cards.First.{
  IsCard, IsOther, get_ib_card_address_first, get_ib_card_address_none,
}

abbrev draw : ℕ → ℕ
draw k = b'A' + k

random_data-letters_example :
    random_data draw 0 (7 ∷ 7 ∷ 7 ∷ 9 ∷ []) 2 ≡ wrote (b'A' ∷ b'B' ∷ 0 ∷ 9 ∷ [])
random_data-letters_example = random_data-letters draw 0 (7 ∷ 7 ∷ []) 7 (9 ∷ [])

-- `lo`, `eno16` and `eno10`.
abbrev loopback : Interface ℕ
loopback = record { ifa_name = b'l' ∷ b'o' ∷ 0 ∷ []; address = 1 }

abbrev other : Interface ℕ
other = record { ifa_name = b'e' ∷ b'n' ∷ b'o' ∷ b'1' ∷ b'6' ∷ 0 ∷ []; address = 3 }

abbrev card : Interface ℕ
card = record { ifa_name = b'e' ∷ b'n' ∷ b'o' ∷ b'1' ∷ b'0' ∷ 0 ∷ []; address = 2 }

loopback-IsOther : IsOther loopback
loopback-IsOther =
    ((b'l' ∷ b'o' ∷ [], refl, (omega arith, (omega arith, tt)), omega arith), λ ten. ten)

other-IsOther : IsOther other
other-IsOther = (
  (
    b'e' ∷ b'n' ∷ b'o' ∷ b'1' ∷ b'6' ∷ [],
    refl,
    (omega arith, (omega arith, (omega arith, (omega arith, (omega arith, tt))))),
    omega arith,
  ),
  λ ten. omega (arith, ten.1),
)

card-IsCard : IsCard card
card-IsCard = (
  (
    b'e' ∷ b'n' ∷ b'o' ∷ b'1' ∷ b'0' ∷ [],
    refl,
    (omega arith, (omega arith, (omega arith, (omega arith, (omega arith, tt))))),
    omega arith,
  ),
  (refl, refl),
)

get_ib_card_address_first_example :
    get_ib_card_address (some (loopback ∷ other ∷ card ∷ other ∷ [])) 0 ≡ some (0, 2)
get_ib_card_address_first_example =
    get_ib_card_address_first (loopback ∷ other ∷ []) card (other ∷ []) 0
      (loopback-IsOther, (other-IsOther, tt)) card-IsCard

get_ib_card_address_none_example :
    get_ib_card_address (some (loopback ∷ other ∷ [])) 5 ≡ some (int_minus_one, 5)
get_ib_card_address_none_example =
    get_ib_card_address_none (loopback ∷ other ∷ []) 5 (loopback-IsOther, (other-IsOther, tt))
