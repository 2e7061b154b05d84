-- ===== src/Queue/Bcl/Pair/Finish.antt =====
-- How a run of `master` and a run of `worker` of BCLTests.cpp end that use the queue together.
use rdma_project.Common.{ℕ, ◌<◌, ◌≡◌, List, []}
use rdma_project.Measure.{Floating}
use rdma_project.Queue.Bcl.{queue_size}
use rdma_project.Queue.Bcl.Queues.{VectorQueue, IsVectorFifo}
use rdma_project.Queue.Bcl.Rounds.{num_rounds, master}
use rdma_project.Queue.Bcl.Pair.{Turn, pushed_vectors, Pair, run, start}

-- One run of each side for the same buffers, of at least one int, on a queue that is empty.
module _ (Q : VectorQueue) (fifo : IsVectorFifo Q queue_size) (F : Floating) (draw : ℕ → ℕ)
    (drawn begin end begin' end' buf_size : ℕ) (pos : 0 < buf_size) (q : Q.State)
    (empty : fifo.contents q ≡ []) where
  -- All vectors that the master pushes.
  abbrev pub vectors : List (List ℕ)
  vectors = pushed_vectors (master F draw drawn begin end buf_size).0

  -- The two after some turns.
  abbrev pub after_turns : List Turn → Pair Q
  after_turns ts = run Q buf_size ts (start Q vectors (num_rounds buf_size) q)
