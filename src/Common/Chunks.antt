-- ===== src/Common/Chunks.antt =====
-- Data of `n` bytes cut into chunks.
use Prim.Native.Nat.{ℕ, suc, ◌+◌, ◌-◌, ◌*◌, ◌/◌, ◌%◌, ◌<◌}
use mathlib.Core.Path.{◌≡◌}
use native.Mathlib.Omega.{arith}

-- The chunks of full size, and how many there are.
pub last_index_lem :
    (n size : ℕ)
    → 0 < size
    → (n - n % size ≡ 0 + n / size * size) × (n / size < suc (n - n % size)) × (n % size < size)
last_index_lem n size pos = (omega arith, grind arith, omega arith)
