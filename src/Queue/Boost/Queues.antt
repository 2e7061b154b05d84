-- ===== src/Queue/Boost/Queues.antt =====
-- The distributed queue of the parallel Boost graph library, as one process sees it.
use rdma_project.Common.{ℕ, ◌≡◌, Bool, false, Option, some}

-- `global_value`; the `int` is a word of 32 bits.
pub record GlobalValue : Type 0 where
  pub processor : ℕ
  pub value : ℕ

-- `empty` and `size` wait for the other processes while nothing is here, and give none where that has
-- no end.
pub record DistributedQueue : Type 1 where
  pub State : Type 0
  pub make : State
  pub synchronize : State → State
  pub push : GlobalValue → State → State
  pub pop : State → State
  pub top : State → GlobalValue
  pub empty : State → Option (Bool × State)
  pub size : State → Option (ℕ × State)

-- What the library promises of process `id` and the values that `owner` gives to it: such a value is
-- put in the local part of the queue, where only `pop` takes it from, and `empty` and `size` answer at
-- once, `empty` with no, while there is something in the local part.
pub record IsDistributed (Q : DistributedQueue) (owner : GlobalValue → ℕ) (id : ℕ) : Type 1 where
  pub Holds : Q.State → Type 0
  pub push-Holds : (v : GlobalValue) (q : Q.State) → owner v ≡ id → Holds (Q.push v q)
  pub synchronize-Holds : (q : Q.State) → Holds q → Holds (Q.synchronize q)
  pub empty-Holds :
      (q : Q.State) → Holds q → (r : Q.State) × (Q.empty q ≡ some (false, r)) × Holds r
  pub size-Holds :
      (q : Q.State) → Holds q → (n : ℕ) × (r : Q.State) × (Q.size q ≡ some (n, r)) × Holds r
