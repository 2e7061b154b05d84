-- ===== src/Legacy/Ints.antt =====
-- `int` offsets as bit patterns. The sum of two that leaves their range is undefined in C++; it wraps
-- here, and the theorems ask that none does.
use rdma_project.Common.{ℕ, ◌+◌, ◌*◌, ◌%◌, ◌^◌, ◌-◌, ◌<◌, ◌≡◌, Bool, ltb, leb, if◌then◌else◌, arith}

abbrev pub add : ℕ → ℕ → ℕ
add a b = (a + b) % 2 ^ 32

abbrev pub mul : ℕ → ℕ → ℕ
mul a b = a * b % 2 ^ 32

-- `a < b` for two ints.
abbrev pub less : ℕ → ℕ → Bool
less a b = ltb ((a + 2 ^ 31) % 2 ^ 32) ((b + 2 ^ 31) % 2 ^ 32)

-- The conversion to `size_t`.
abbrev pub to_size : ℕ → ℕ
to_size n = if leb (2 ^ 31) n then n + (2 ^ 64 - 2 ^ 32) else n

pub less-ltb : (a b : ℕ) → a < 2 ^ 31 → b < 2 ^ 31 → less a b ≡ ltb a b
less-ltb a b h k = ground arith

pub to_size_lem : (n : ℕ) → n < 2 ^ 31 → to_size n ≡ n
to_size_lem n h = ground arith
