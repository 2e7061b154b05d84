-- ===== src/Queue/Boost.antt =====
-- QueueExperiments/boost_tests/BoostTests.cpp: what one process does. The queue, MPI and the host are
-- parameters. A line that `main` prints is kept without its words and the name of the host.
pub mod Queues
pub mod Hang
pub mod Host
mod Tests
use rdma_project.Common.{
  ℕ, zero, suc, ◌-◌, ◌%◌, ◌^◌, ◌==◌, Bool, true, false, List, [], ◌∷◌, ◌++◌, Option, none, some,
  replicate, if◌then◌else◌,
}
use mathlib.Core.Option as Option
use rdma_project.Queue.Boost.Queues.{GlobalValue, DistributedQueue}

-- `global_value()` with its default arguments.
abbrev pub default_value : GlobalValue
default_value = record { processor = 2 ^ 32 - 1; value = 0 }

-- `get` of `global_value_owner_map`.
unfoldable pub get : GlobalValue → ℕ
get k = k.processor

-- `serialize`: an archive visits each field, and writes it or gives it a new value.
unfoldable pub serialize :
    {Archive : Type 0} → (Archive → ℕ → Archive × ℕ) → Archive → GlobalValue → Archive × GlobalValue
serialize visit ar v =
    let first = visit ar v.processor in
    let second = visit first.0 v.value in
    (second.0, record { processor = first.1; value = second.1 })

-- The characters in front of the first NUL; none where there is no NUL in the array.
unfoldable pub string_of : List ℕ → Option (List ℕ)
string_of [] = none
string_of (zero ∷ cs) = some []
string_of (suc c ∷ cs) = Option.map (λ s. suc c ∷ s) (string_of cs)

-- `gethostname(buf, 2048)` fills an array of 2049 characters, which starts with any value.
unfoldable pub hostname : (gethostname : ℕ → List ℕ → List ℕ) → (buf : List ℕ) → Option (List ℕ)
hostname gethostname buf = string_of (gethostname 2048 buf)

pub data Line : Type 0 where
  host : (id n : ℕ) → Line
  wrote about_to_read have_read : (value : ℕ) → Line
  check_in : Line
  queue_size : (size : ℕ) → Line

pub data Outcome : Type 0 where
  returns : List Line → Outcome
  blocks : Outcome
  out_of_fuel : Outcome

module _ (Q : DistributedQueue) (id : ℕ) where
  open Q use {State, empty, top, pop}

  -- The `while`.
  unfoldable pub read_loop : ℕ → State → GlobalValue → List Line → Outcome
  read_loop zero q v lines = out_of_fuel
  read_loop (suc f) q v lines = elim (empty q) [
    | none ↦ blocks
    | some answer ↦ elim answer.0 [
      | true ↦ returns lines
      | false ↦ elim (id == 1) [
        | true ↦
            let read = top answer.1 in
            read_loop f (pop answer.1) read
              (lines ++ about_to_read v.value ∷ have_read read.value ∷ [])
        | false ↦ read_loop f answer.1 v lines
      ]
    ]
  ]

  -- From the making of the queue to the first `synchronize` behind the push.
  unfoldable pub push_phase : GlobalValue → State
  push_phase v = let q = Q.synchronize Q.make in Q.synchronize (if id == 0 then Q.push v q else q)

  -- `main` on process `id` of `n`.
  unfoldable pub main : (n fuel : ℕ) → Outcome
  main n fuel =
      let v : GlobalValue = record { processor = 0; value = 0 } in
      let lines = host id n ∷ (if id == 0 then wrote v.value ∷ [] else []) in
      elim (Q.size (Q.synchronize (push_phase v))) [
        | none ↦ blocks
        | some answer ↦
            read_loop fuel answer.1 v (lines ++ check_in ∷ queue_size (answer.0 % 2 ^ 32) ∷ [])
      ]
