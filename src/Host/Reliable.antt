-- ===== src/Host/Reliable.antt =====
-- What the documentation of the system calls promises, as hypotheses on a `Kernel`.
use rdma_project.Common.{ℕ, ◌<◌, ◌≤◌, ◌≡◌, arith}
use rdma_project.Host.{Kernel, count, blocks}

-- A call of `send` that succeeds takes at least one byte, and no more than it was given. From call
-- `t` on, every call succeeds.
pub record Sends (K : Kernel) (t : ℕ) : Type 0 where
  pub takes : (u n : ℕ) → t ≤ u → 0 < n → (k : ℕ) × (K.send u n ≡ count k) × (0 < k) × (k ≤ n)

pub Sends-later : {K : Kernel} {t u : ℕ} → t ≤ u → Sends K t → Sends K u
Sends-later h ok = record { takes = λ v n le. ok.takes v n (omega arith) }

-- While bytes are there to read, every call of `recv` gives at least one, and no more than asked.
pub record Receives (K : Kernel) : Type 0 where
  pub gives :
      (t n a : ℕ) → 0 < n → 0 < a → (k : ℕ) × (K.recv t n a ≡ count k) × (0 < k) × (k ≤ n) × (k ≤ a)

-- A count never exceeds what was asked for, nor what has arrived; calls may fail or block.
pub record IsBounded (K : Kernel) : Type 0 where
  pub recv_le : (t n a k : ℕ) → K.recv t n a ≡ count k → (k ≤ n) × (k ≤ a)
  pub read_le : (t fd n k : ℕ) → K.read t fd n ≡ count k → k ≤ n

-- While nothing has arrived and the peer has not closed the connection, `recv` waits.
pub record Patient (K : Kernel) : Type 0 where
  pub waits : (t n : ℕ) → 0 < n → K.recv t n 0 ≡ blocks
