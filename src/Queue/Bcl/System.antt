-- ===== src/Queue/Bcl/System.antt =====
-- All processes with the queue. Each makes its calls in order; pushes and pops happen one at a time,
-- in any order of the processes; a barrier is passed by all together.
pub mod Counts
pub mod Phases
pub mod Progress
pub mod Values
use rdma_project.Common.{ℕ, zero, suc, List, [], ◌∷◌, ◌++◌, ◌≡◌, Option, map}
use rdma_project.Queue.Bcl.{Call, barrier, push, pop, main}
use rdma_project.Queue.Bcl.Queues.{CircularQueue}

module _ (Q : CircularQueue) where
  open Q use {State}

  -- The calls that each process has still to make, the values of all pushes so far and what the pops
  -- so far have given, in order.
  pub record System : Type 0 where
    pub procs : List (List Call)
    pub queue : State
    pub pushed : List ℕ
    pub popped : List (Option ℕ)

  pub data Step (s t : System) : Type 0 where
    pushes :
        (before after : List (List Call)) (value : ℕ) (p : List Call)
        → s.procs ≡ before ++ (push value ∷ p) ∷ after
        → t.procs ≡ before ++ p ∷ after
        → t.queue ≡ (Q.push value s.queue).1
        → t.pushed ≡ s.pushed ++ value ∷ []
        → t.popped ≡ s.popped
        → Step s t
    pops :
        (before after : List (List Call)) (p : List Call)
        → s.procs ≡ before ++ (pop ∷ p) ∷ after
        → t.procs ≡ before ++ p ∷ after
        → t.queue ≡ (Q.pop s.queue).1
        → t.pushed ≡ s.pushed
        → t.popped ≡ s.popped ++ (Q.pop s.queue).0 ∷ []
        → Step s t
    passes :
        s.procs ≡ map (◌∷◌ barrier) t.procs
        → t.queue ≡ s.queue
        → t.pushed ≡ s.pushed
        → t.popped ≡ s.popped
        → Step s t

  pub data Reach (s : System) : System → Type 0 where
    here : Reach s s
    next : {t u : System} → Reach s t → Step t u → Reach s u

-- `main` on `k` of `nprocs` processes, from number `rank` on.
abbrev pub mains : (nprocs rank k : ℕ) → List (List Call)
mains nprocs rank zero = []
mains nprocs rank (suc k) = main nprocs rank ∷ mains nprocs (suc rank) k
