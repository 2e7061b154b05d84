-- ===== src/Host/Ints.antt =====
-- The conversions between `ssize_t`, `int` and `size_t` that the loops over system calls make.
-- A signed value is its bit pattern.
use rdma_project.Common.{
  ℕ, ◌+◌, ◌-◌, ◌%◌, ◌^◌, ◌<◌, ◌≡◌, Bool, false, leb, if◌then◌else◌, arith, ◌||◌, ◌==◌,
}

-- -1 as an `ssize_t`.
abbrev pub minus_one : ℕ
minus_one = 2 ^ 64 - 1

-- -1 as an `int`.
abbrev pub int_minus_one : ℕ
int_minus_one = 2 ^ 32 - 1

-- `int x = result;` for a result of type `ssize_t`.
abbrev pub to_int : ℕ → ℕ
to_int x = x % 2 ^ 32

-- `x < 0` and `x <= 0` for an `int`.
abbrev pub is_negative : ℕ → Bool
is_negative x = leb (2 ^ 31) x

abbrev pub is_nonpositive : ℕ → Bool
is_nonpositive x = is_negative x || x == 0

-- `n += x;` for `size_t n` and `int x`: `x` is sign-extended, and the sum wraps.
abbrev pub add_int : ℕ → ℕ → ℕ
add_int n x = (n + (if is_negative x then x + (2 ^ 64 - 2 ^ 32) else x)) % 2 ^ 64

pub add_int-to_int : (n k : ℕ) → k < 2 ^ 31 → n + k < 2 ^ 64 → add_int n (to_int k) ≡ n + k
add_int-to_int n k h b = ground arith

pub add_int-minus_one : (n : ℕ) → n + 1 < 2 ^ 64 → add_int (n + 1) (to_int minus_one) ≡ n
add_int-minus_one n b = ground arith

pub is_nonpositive-to_int : (k : ℕ) → 0 < k → k < 2 ^ 31 → is_nonpositive (to_int k) ≡ false
is_nonpositive-to_int k p h = ground arith
