-- ===== src/Queue/Bcl.antt =====
-- QueueExperiments/bcl_tests/BCLTests.cpp: `main`, which every process runs. The library BCL is not
-- part of the repository: its queue is a parameter, and its barrier is the step that all processes
-- make together. `sleep_for`, the printing and the cleaning up are left out.
pub mod Queues
pub mod System
pub mod Output
pub mod Order
pub mod Rounds
pub mod Pair
mod Tests
use rdma_project.Common.{ℕ, zero, suc, List, [], ◌∷◌, ◌++◌, ltb, if◌then◌else◌}

-- What a process asks of BCL.
pub data Call : Type 0 where
  barrier : Call
  push : (value : ℕ) → Call
  pop : Call
  -- `exit(1)`.
  exit : Call

abbrev pub num_ops : ℕ
num_ops = 100000

abbrev pub queue_size : ℕ
queue_size = num_ops

-- The two `for`, with `n` rounds left, in front of the calls `rest`.
unfoldable pub push_loop : (n rank : ℕ) → List Call → List Call
push_loop zero rank rest = rest
push_loop (suc n) rank rest = push rank ∷ push_loop n rank rest

unfoldable pub pop_loop : ℕ → List Call → List Call
pop_loop zero rest = rest
pop_loop (suc n) rest = pop ∷ pop_loop n rest

-- The calls of `main` behind the making of the queue.
unfoldable pub main : (nprocs rank : ℕ) → List Call
main nprocs rank =
    if ltb nprocs 2
    then exit ∷ []
    else barrier ∷ push_loop 5 rank (barrier ∷ pop_loop 5 (barrier ∷ []))
