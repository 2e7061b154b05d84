-- ===== src/Queue/Bcl/Pair.antt =====
-- `master` and `worker` of BCLTests.cpp between the two barriers, when both use the queue: they take
-- turns in any order, the master to push a vector and the worker to try a pop.
pub mod History
pub mod Drain
pub mod Finish
use rdma_project.Common.{ℕ, zero, suc, List, [], ◌∷◌, ◌++◌, Bool, Option, none, some, if◌then◌else◌}
use rdma_project.Queue.Bcl.Queues.{VectorQueue}
use rdma_project.Queue.Bcl.Rounds.{Act, barrier, now, push}

pub data Turn : Type 0 where
  by_master by_worker : Turn

abbrev pub master_turns : List Turn → ℕ
master_turns [] = 0
master_turns (by_master ∷ ts) = suc (master_turns ts)
master_turns (by_worker ∷ ts) = master_turns ts

abbrev pub worker_turns : List Turn → ℕ
worker_turns [] = 0
worker_turns (by_master ∷ ts) = worker_turns ts
worker_turns (by_worker ∷ ts) = suc (worker_turns ts)

-- The vectors that some calls push, and those that some answers give.
abbrev pub pushed_vectors : List Act → List (List ℕ)
pushed_vectors [] = []
pushed_vectors (push v ∷ p) = v ∷ pushed_vectors p
pushed_vectors (barrier ∷ p) = pushed_vectors p
pushed_vectors (now ∷ p) = pushed_vectors p

abbrev pub given_vectors : List (Option (List ℕ)) → List (List ℕ)
given_vectors [] = []
given_vectors (none ∷ answers) = given_vectors answers
given_vectors (some v ∷ answers) = v ∷ given_vectors answers

module _ (Q : VectorQueue) where
  -- What the master has still to push, how many pops have still to succeed, how many pushes have
  -- returned false, and the answers of the pops so far.
  pub record Pair : Type 0 where
    pub unpushed : List (List ℕ)
    pub left : ℕ
    pub queue : Q.State
    pub refused : ℕ
    pub answers : List (Option (List ℕ))

  -- Each ends its turn where its loop has ended.
  unfoldable pub push_next : List (List ℕ) → Pair → Pair
  push_next [] p = p
  push_next (v ∷ vs) p = record {
    unpushed = vs;
    left = p.left;
    queue = (Q.push v p.queue).1;
    refused = if (Q.push v p.queue).0 then p.refused else suc p.refused;
    answers = p.answers;
  }

  abbrev pub left_after : Option (List ℕ) → ℕ → ℕ
  left_after none n = suc n
  left_after (some v) n = n

  unfoldable pub pop_next : (buf_size left : ℕ) → Pair → Pair
  pop_next buf_size zero p = p
  pop_next buf_size (suc n) p = record {
    unpushed = p.unpushed;
    left = left_after (Q.pop buf_size p.queue).0 n;
    queue = (Q.pop buf_size p.queue).1;
    refused = p.refused;
    answers = p.answers ++ (Q.pop buf_size p.queue).0 ∷ [];
  }

  unfoldable pub turn : (buf_size : ℕ) → Turn → Pair → Pair
  turn buf_size by_master p = push_next p.unpushed p
  turn buf_size by_worker p = pop_next buf_size p.left p

  unfoldable pub run : (buf_size : ℕ) → List Turn → Pair → Pair
  run buf_size [] p = p
  run buf_size (t ∷ ts) p = run buf_size ts (turn buf_size t p)

  -- Both behind the first barrier.
  abbrev pub start : List (List ℕ) → ℕ → Q.State → Pair
  start unpushed left queue = record {
    unpushed = unpushed;
    left = left;
    queue = queue;
    refused = 0;
    answers = [];
  }
