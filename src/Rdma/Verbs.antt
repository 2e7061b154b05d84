-- ===== src/Rdma/Verbs.antt =====
-- The calls that the RDMA experiments make of the library infinity, which is not part of the
-- repository. A test is modelled by the calls that it makes, in order: none of them has a result that
-- the code tests, since each request is waited for and each receive is polled until it succeeds.
-- What the calls do to the two ends is the subject of `System`.
pub mod Emits
use rdma_project.Common.{ℕ, suc, List, [], ◌∷◌, ◌++◌, Option, none, some}

-- `local` and `remote` are offsets into the buffer of the caller and into the one that the token of
-- the peer names. Each request comes with its
-- `waitUntilCompleted`, where the code has one.
pub data Op : Type 0 where
  connect : Op
  accept : Op
  send : (offset size : ℕ) → Op
  receive : (capacity : ℕ) → Op
  read : (local remote size : ℕ) → Op
  write : (local remote size : ℕ) → Op
  -- `dev_random_data` into the registered buffer, and `memset` of it to 0.
  randomize : ℕ → Op
  clear : ℕ → Op

-- The calls made so far, and the number of clock readings.
pub record Log : Type 0 where
  pub ops : List Op
  pub readings : ℕ

-- A test; `none` is a loop that was given too few rounds.
abbrev pub Test : Type 0 → Type 0
Test A = Log → Option (A × Log)

abbrev pub pure : {A : Type 0} → A → Test A
pure a = λ s. some (a, s)

abbrev pub out_of_fuel : {A : Type 0} → Test A
out_of_fuel = λ s. none

module _ {A B : Type 0} where
  abbrev pub and_then : Option (A × Log) → (A → Test B) → Option (B × Log)
  and_then none k = none
  and_then (some (a, s)) k = k a s

  infixl 5 ◌>>=◌ ◌>>◌
  abbrev pub ◌>>=◌ : Test A → (A → Test B) → Test B
  m >>= k = λ s. and_then (m s) k

  abbrev pub ◌>>◌ : Test A → Test B → Test B
  m >> n = m >>= λ _. n

unfoldable pub emit : Op → Test (Unit {0})
emit op s = some (tt, record s { ops = s.ops ++ op ∷ [] })

-- `high_resolution_clock::now()`, as the n-th reading of a clock.
unfoldable pub now : (ℕ → ℕ) → Test ℕ
now clock s = some (clock s.readings, record s { readings = suc s.readings })
