-- ===== src/Utils/RandomData.antt =====
-- What reading /dev/urandom does to the buffer and to the process.
use native.Mathlib.Nat.{add-zero}
use native.Mathlib.Numerals.{add-one}
use rdma_project.Common.{
  ℕ, suc, ◌≤◌, ◌≡◌, refl, List, [], arith, length, replicate, length-replicate, overwrite,
  length-overwrite, append-nil,
}
use rdma_project.Host.{
  Kernel, Process, count, sys_open, sys_read, length-random_bytes, random_bytes,
}
use rdma_project.Host.Effect
use rdma_project.Host.Effect.{Effect, after}
use rdma_project.Utils.{dev_random_data, generate_random_data}

-- `open` gives a descriptor, and `read` no more than it was asked for.
pub record Random (K : Kernel) : Type 0 where
  pub opens : (t : ℕ) → (fd : ℕ) × (K.open_file t ≡ count fd)
  pub reads : (t fd n : ℕ) → (k : ℕ) × (K.read t fd n ≡ count k) × (k ≤ n)

abbrev pub HasLength : ℕ → List ℕ → Type 0
HasLength n d = length d ≡ n

module _ (K : Kernel) (ok : Random K) where
  sys_open-Effect : (s : Process) → Effect s [] 0 1 (λ _. Unit {0}) (sys_open K s)
  unfolding sys_open
  sys_open-Effect s = record {
    value = (ok.opens s.calls).0;
    last = suc s.calls;
    later = omega arith;
    holds = tt;
    result = rw ((ok.opens s.calls).1, sys_open, append-nil s.outbound, add-one) refl;
  }

  sys_read-Effect :
      (fd : ℕ) (buffer : List ℕ) (size : ℕ) (s : Process)
      → size ≤ length buffer
      → Effect s [] 0 0 (HasLength (length buffer)) (sys_read K fd buffer size s)
  unfolding sys_read
  sys_read-Effect fd buffer size s room =
      let (k, e, le) = ok.reads s.calls fd size in
      let bytes = random_bytes (K.random s.calls) 0 k in
      let many = length-random_bytes (K.random s.calls) 0 k in
      record {
        value = overwrite 0 bytes buffer;
        last = suc s.calls;
        later = omega arith;
        holds = length-overwrite 0 bytes buffer (omega arith);
        result = rw (e, sys_read, append-nil s.outbound, add-zero s.fds) refl;
      }

  -- When /dev/urandom opens and reads, within a buffer of at least `size` bytes: each call of
  -- `dev_random_data` leaves one more file open. It keeps the length of the buffer,
  -- sends nothing and reads nothing from the socket.
  pub dev_random_data-Effect :
      (buffer : List ℕ) (size : ℕ) (s : Process)
      → size ≤ length buffer
      → Effect s [] 0 1 (HasLength (length buffer)) (dev_random_data K buffer size s)
  unfolding dev_random_data
  dev_random_data-Effect buffer size s room =
      Effect.bind s [] [] 0 0 1 0 _ (sys_open-Effect s)
        λ fd c le _. sys_read-Effect _ buffer size (after s [] 0 1 c) room

  pub generate_random_data-Effect :
      (len : ℕ) (s : Process) → Effect s [] 0 1 (HasLength len) (generate_random_data K len s)
  unfolding generate_random_data
  generate_random_data-Effect len s =
      let zeros : length (replicate {A = ℕ} len 0) ≡ len = length-replicate len 0 in
      rw zeros at (dev_random_data-Effect (replicate len 0) len s (omega (arith, zeros)))
