-- ===== src/Host.antt =====
-- A process of the experiments as the operating system sees it. The system calls are not part of
-- the repository: their results come from a `Kernel`, which is a parameter of all that calls it.
-- What is modelled here is what the results do to the process.
pub mod Ints
pub mod Reliable
pub mod Effect
pub mod Waits
use rdma_project.Common.{
  ◌-◌, ℕ, zero, suc, ◌≡◌, refl, ap, List, [], ◌∷◌, ◌++◌, take, drop, overwrite, length,
}
use Ints.{minus_one}

-- The result of a system call: a count, the error -1, or a call that never returns.
pub data SysResult : Type 0 where
  count : ℕ → SysResult
  failed : SysResult
  blocks : SysResult

-- The first argument is the number of the call. `send` and `recv` are told the length asked for,
-- `recv` also how many bytes have arrived; `read` the descriptor and the length. `random` gives the
-- bytes of one read of /dev/urandom, `now` the clock in nanoseconds.
pub record Kernel : Type 0 where
  pub send : ℕ → ℕ → SysResult
  pub recv : ℕ → ℕ → ℕ → SysResult
  pub open_file : ℕ → SysResult
  pub read : ℕ → ℕ → ℕ → SysResult
  pub random : ℕ → ℕ → ℕ
  pub now : ℕ → ℕ

-- The two directions of the process's socket, the number of its open files, and the number of
-- system calls it has made.
pub record Process : Type 0 where
  pub outbound : List ℕ
  pub inbound : List ℕ
  pub fds : ℕ
  pub calls : ℕ

-- `exited` is `exit(-1)`; `blocked` is a call that does not return, with the process as it waits;
-- `out_of_fuel` is a loop that was given too few rounds.
pub data Outcome (A : Type 0) : Type 0 where
  done : A → Process → Outcome A
  exited : Outcome A
  blocked : Process → Outcome A
  out_of_fuel : Outcome A

abbrev pub Cmd : Type 0 → Type 0
Cmd A = Process → Outcome A

abbrev pub pure : {A : Type 0} → A → Cmd A
pure a = λ s. done a s

abbrev pub exit_failure : {A : Type 0} → Cmd A
exit_failure = λ s. exited

module _ {A B : Type 0} where
  abbrev pub and_then : Outcome A → (A → Cmd B) → Outcome B
  and_then (done a s) k = k a s
  and_then exited k = exited
  and_then (blocked s) k = blocked s
  and_then out_of_fuel k = out_of_fuel

  infixl 5 ◌>>=◌ ◌>>◌
  abbrev pub ◌>>=◌ : Cmd A → (A → Cmd B) → Cmd B
  m >>= k = λ s. and_then (m s) k

  abbrev pub ◌>>◌ : Cmd A → Cmd B → Cmd B
  m >> n = m >>= λ _. n

-- `n` bytes of one read, from index `i` on.
pub random_bytes : (ℕ → ℕ) → ℕ → ℕ → List ℕ
random_bytes byte i zero = []
random_bytes byte i (suc n) = byte i ∷ random_bytes byte (suc i) n

pub length-random_bytes : (byte : ℕ → ℕ) (i n : ℕ) → length (random_bytes byte i n) ≡ n
unfolding random_bytes
length-random_bytes byte i zero = refl
length-random_bytes byte i (suc n) = ap suc (length-random_bytes byte (suc i) n)

module _ (K : Kernel) where
  -- `send(socket, bytes, size, 0)`: the kernel takes bytes from the front.
  unfoldable pub sys_send : List ℕ → ℕ → Cmd ℕ
  sys_send bytes size s = elim (K.send s.calls size) [
    | count k ↦ done k (record s { outbound = s.outbound ++ take k bytes; calls = suc s.calls })
    | failed ↦ done minus_one (record s { calls = suc s.calls })
    | blocks ↦ blocked s
  ]

  -- `recv(socket, buffer + off, size, 0)`: the bytes that arrived first go to the buffer. The
  -- result comes with the buffer.
  unfoldable pub sys_recv : List ℕ → ℕ → ℕ → Cmd (ℕ × List ℕ)
  sys_recv buffer off size s = elim (K.recv s.calls size (length s.inbound)) [
    | count k ↦
        done (k, overwrite off (take k s.inbound) buffer)
          (record s { inbound = drop k s.inbound; calls = suc s.calls })
    | failed ↦ done (minus_one, buffer) (record s { calls = suc s.calls })
    | blocks ↦ blocked s
  ]

  -- `open(path, O_RDONLY)`: a descriptor, if the call succeeds.
  unfoldable pub sys_open : Cmd ℕ
  sys_open s = elim (K.open_file s.calls) [
    | count fd ↦ done fd (record s { fds = suc s.fds; calls = suc s.calls })
    | failed ↦ done minus_one (record s { calls = suc s.calls })
    | blocks ↦ blocked s
  ]

  -- `read(fd, buffer, size)` of a source of random bytes; the callers ignore the count.
  unfoldable pub sys_read : ℕ → List ℕ → ℕ → Cmd (List ℕ)
  unfolding random_bytes
  sys_read fd buffer size s = elim (K.read s.calls fd size) [
    | count k ↦
        done (overwrite 0 (random_bytes (K.random s.calls) 0 k) buffer)
          (record s { calls = suc s.calls })
    | failed ↦ done buffer (record s { calls = suc s.calls })
    | blocks ↦ blocked s
  ]

  -- `high_resolution_clock::now()`.
  unfoldable pub sys_now : Cmd ℕ
  sys_now s = done (K.now s.calls) (record s { calls = suc s.calls })

  -- `close` of an open descriptor; the callers ignore what it returns.
  unfoldable pub sys_close : Cmd (Unit {0})
  sys_close s = done tt (record s { fds = s.fds - 1; calls = suc s.calls })
