-- ===== src/Queue/Bcl/Order.antt =====
-- What comes out of the queue of BCLTests.cpp, whatever the order of the processes.
use rdma_project.Common.{
  leb, ltb, ◌==◌, ◌&&◌, if◌then◌else◌, ◌∙◌, ◌+◌, ℕ, zero, suc, ◌*◌, ◌≤◌, ◌≡◌, refl, sym, ap, [],
  ◌++◌, map, length, All, arith, some, append-nil, le→ltb_false,
}
use rdma_project.Queue.Bcl.{main, push_loop, pop_loop, queue_size}
use rdma_project.Queue.Bcl.Queues.{CircularQueue, IsFifo}
use rdma_project.Queue.Bcl.System.{System, Reach, mains}
use rdma_project.Queue.Bcl.System.Counts.{Ready, IsDone, total, total-IsDone}
use rdma_project.Queue.Bcl.System.Values.{pushes_of, count, all_pushes, Reach-all_pushes}
use rdma_project.Queue.Bcl.System.Progress.{finish, calls_left}
use rdma_project.Queue.Bcl.System.Phases.{Inv, Reach-Inv, Inv-start, Inv-finished}

-- All processes at the start of `main`, with the queue that it makes.
unfoldable pub start : (Q : CircularQueue) → ℕ → System Q
start Q nprocs = record {
  procs = mains nprocs 0 nprocs;
  queue = Q.make queue_size;
  pushed = [];
  popped = [];
}

-- A process that starts has five values to push and five to pop.
main-Ready : (nprocs rank : ℕ) → 2 ≤ nprocs → Ready (main nprocs rank)
unfolding main push_loop pop_loop
main-Ready nprocs rank many = rw (le→ltb_false nprocs 2 many) ((refl, refl))

mains-Ready : (nprocs rank k : ℕ) → 2 ≤ nprocs → All Ready (mains nprocs rank k)
mains-Ready nprocs rank zero many = tt
mains-Ready nprocs rank (suc k) many =
    (main-Ready nprocs rank many, mains-Ready nprocs (suc rank) k many)

length-mains : (nprocs rank k : ℕ) → length (mains nprocs rank k) ≡ k
length-mains nprocs rank zero = refl
length-mains nprocs rank (suc k) = ap suc (length-mains nprocs (suc rank) k)

main-pushes_of :
    (value nprocs rank : ℕ)
    → 2 ≤ nprocs
    → pushes_of value (main nprocs rank) ≡ (if rank == value then 5 else 0)
unfolding main push_loop pop_loop
main-pushes_of value nprocs rank many = rw (le→ltb_false nprocs 2 many) (ground arith)

mains-pushes_of :
    (value nprocs rank k : ℕ)
    → 2 ≤ nprocs
    → total (pushes_of value) (mains nprocs rank k)
      ≡ (if leb rank value && ltb value (rank + k) then 5 else 0)
mains-pushes_of value nprocs rank zero many = ground arith
mains-pushes_of value nprocs rank (suc k) many =
    ground
      (arith, main-pushes_of value nprocs rank many, mains-pushes_of value nprocs (suc rank) k many)

module _ (Q : CircularQueue) (fifo : IsFifo Q queue_size) (nprocs : ℕ) (many : 2 ≤ nprocs)
    (room : 5 * nprocs ≤ queue_size) where
  open fifo use {contents}

  start-Inv : Inv Q queue_size fifo (start Q nprocs)
  unfolding start
  start-Inv =
      Inv-start Q queue_size fifo (start Q nprocs) (mains-Ready nprocs 0 nprocs many)
        fifo.contents-make (rw (fifo.contents-make) refl)
        (omega (arith, length-mains nprocs 0 nprocs))

  start-pushes :
      (value : ℕ) → all_pushes Q value (start Q nprocs) ≡ (if ltb value nprocs then 5 else 0)
  unfolding start
  start-pushes value = ground (arith, mains-pushes_of value nprocs 0 nprocs many)

  -- With at least two processes, and room for five values of each, in every state that the processes
  -- can reach: what has been pushed so far is, in order, what the pops have given so far and then what
  -- is in the queue. So no pop has found the queue empty.
  pub pops_in_order :
      {s : System Q}
      → Reach Q (start Q nprocs) s
      → map some s.pushed ≡ s.popped ++ map some (contents s.queue)
  pops_in_order r = (Reach-Inv Q queue_size fifo r start-Inv).history

  -- With at least two processes, and room for five values of each, from every state that the processes
  -- can reach they can go on to one in which all have made all their calls. There the pops have given
  -- just the values pushed, in the order of the pushes, among them five times the number of each
  -- process and no other value.
  pub main_finishes :
      {s : System Q} (value : ℕ)
      → Reach Q (start Q nprocs) s
      → (t : System Q) × Reach Q s t
        × All IsDone t.procs
        × (t.popped ≡ map some t.pushed)
        × (count value t.pushed ≡ (if ltb value nprocs then 5 else 0))
  main_finishes {s} value r =
      let (t, way, i, all_done) =
        finish Q queue_size fifo (suc (calls_left s.procs)) s
          (Reach-Inv Q queue_size fifo r start-Inv) (omega arith) in
      let all_pushed = Reach-all_pushes Q value way ∙ Reach-all_pushes Q value r in
      (
        t,
        way,
        all_done,
        rw (i.history, Inv-finished Q queue_size fifo i all_done) (sym (append-nil t.popped)),
        omega (
          arith,
          all_pushed,
          start-pushes value,
          total-IsDone (pushes_of value) t.procs refl all_done,
        ),
      )
