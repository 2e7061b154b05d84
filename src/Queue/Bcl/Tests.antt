-- ===== src/Queue/Bcl/Tests.antt =====
-- Two processes run the test of BCLTests.cpp on a queue that is a list.
use rdma_project.Common.{
  leb, le→leb, lt→leb_false, take, All, ℕ, ◌<◌, ◌≡◌, refl, ap, List, [], ◌∷◌, ◌++◌, map, length,
  arith, Option, some, none, ltb, if◌then◌else◌, true, false, lt→ltb, ◌+◌, ◌*◌, ◌/◌, ◌^◌, drop,
}
use rdma_project.Queue.Bcl.{Call, barrier, push, pop, main, push_loop, pop_loop, queue_size}
use rdma_project.Queue.Bcl.Queues.{CircularQueue, IsFifo, VectorQueue, IsVectorFifo}
use rdma_project.Queue.Bcl.System.{System, pushes, passes, Reach, here, next}
use rdma_project.Measure.{Floating}
use rdma_project.Queue.Bcl.Pair.{Turn, Pair, by_master, by_worker}
use rdma_project.Queue.Bcl.Pair.Finish.{vectors, after_turns}
use rdma_project.Queue.Bcl.System.Counts.{IsDone}
use rdma_project.Queue.Bcl.System.Values.{count}
use rdma_project.Queue.Bcl.Order.{start, pops_in_order, main_finishes}

abbrev first : List ℕ → Option ℕ × List ℕ
first [] = (none, [])
first (x ∷ xs) = (some x, xs)

abbrev list_queue : CircularQueue
list_queue = record {
  State = List ℕ;
  make = λ _. [];
  push = λ v q. if ltb (length q) queue_size then (true, q ++ v ∷ []) else (false, q);
  pop = first;
}

list_push : (v : ℕ) (q : List ℕ) → length q < queue_size → list_queue.push v q ≡ (true, q ++ v ∷ [])
list_push v q room = rw (lt→ltb (length q) queue_size room) refl

list_queue-IsFifo : IsFifo list_queue queue_size
list_queue-IsFifo = record {
  contents = λ q. q;
  contents-make = refl;
  push-contents =
      λ v q room. (ap (λ r. r.0) (list_push v q room), ap (λ r. r.1) (list_push v q room));
  pop-contents = λ v vs q full. (ap (λ r. (first r).0) full, ap (λ r. (first r).1) full);
}

abbrev state : List (List Call) → List ℕ → List ℕ → List (Option ℕ) → System list_queue
state procs queue pushed popped = record {
  procs = procs;
  queue = queue;
  pushed = pushed;
  popped = popped;
}

abbrev popping : List Call
popping = pop ∷ pop ∷ pop ∷ pop ∷ pop ∷ barrier ∷ []

abbrev pushing : ℕ → List Call
pushing v = push v ∷ push v ∷ push v ∷ push v ∷ push v ∷ barrier ∷ popping

-- The first barrier is behind the processes.
started : Reach list_queue (start list_queue 2) (state (pushing 0 ∷ pushing 1 ∷ []) [] [] [])
unfolding start main push_loop pop_loop
started = next here (passes refl refl refl refl)

two_pushes : Reach list_queue (start list_queue 2) (
    state
      ((push 0 ∷ push 0 ∷ push 0 ∷ push 0 ∷ barrier ∷ popping)
        ∷ (push 1 ∷ push 1 ∷ push 1 ∷ push 1 ∷ barrier ∷ popping)
        ∷ [])
      (1 ∷ 0 ∷ [])
      (1 ∷ 0 ∷ [])
      [])
two_pushes =
    next (next started (pushes (_ ∷ []) [] 1 _ refl refl refl refl refl))
      (pushes [] (_ ∷ []) 0 _ refl refl refl refl refl)

abbrev one_zero : List ℕ
one_zero = 1 ∷ 0 ∷ []

pops_in_order_example : map some one_zero ≡ [] ++ map some one_zero
unfolding list_queue-IsFifo
pops_in_order_example =
    pops_in_order list_queue list_queue-IsFifo 2 (omega arith) (omega arith) two_pushes

main_finishes_example :
    (t : System list_queue) × Reach list_queue
      (state
        ((push 0 ∷ push 0 ∷ push 0 ∷ push 0 ∷ barrier ∷ popping)
          ∷ (push 1 ∷ push 1 ∷ push 1 ∷ push 1 ∷ barrier ∷ popping)
          ∷ [])
        one_zero
        one_zero
        [])
      t
    × All IsDone t.procs
    × (t.popped ≡ map some t.pushed)
    × (count 1 t.pushed ≡ 5)
main_finishes_example =
    main_finishes list_queue list_queue-IsFifo 2 (omega arith) (omega arith) 1 two_pushes

-- Doubles are numbers here.
abbrev floats : Floating
floats = record { Double = ℕ; of_ℕ = λ n. n; divide = ◌/◌; multiply = ◌*◌; pow = ◌^◌ }

-- A pop that fails, and one that succeeds.
abbrev answers : List (Option (List ℕ))
answers = none ∷ some (7 ∷ []) ∷ []

-- The queue by vectors, as a list.
abbrev list_vectors : VectorQueue
list_vectors = record {
  State = List ℕ;
  push = λ vs q. if leb (length q + length vs) queue_size then (true, q ++ vs) else (false, q);
  pop = λ n q. if leb n (length q) then (some (take n q), drop n q) else (none, q);
}

list_vectors-IsVectorFifo : IsVectorFifo list_vectors queue_size
list_vectors-IsVectorFifo = record {
  contents = λ q. q;
  push-contents = λ vs q room. rw (le→leb (length q + length vs) queue_size room) (refl, refl);
  pop-contents = λ n q enough. rw (le→leb n (length q) enough) (refl, refl);
  pop-none = λ n q few. rw (lt→leb_false n (length q) few) (refl, refl);
}

-- Two rounds of 50000 ints. The worker has tried two pops when the master has pushed one vector.
abbrev first_turns : List Turn
first_turns = by_worker ∷ by_master ∷ by_worker ∷ by_master ∷ []

no_vectors : list_vectors-IsVectorFifo.contents [] ≡ []
unfolding list_vectors-IsVectorFifo
no_vectors = refl

abbrev two_rounds : List Turn → Pair list_vectors
two_rounds =
    after_turns list_vectors list_vectors-IsVectorFifo floats (λ n. n) 0 10 20 10 20 50000
      (omega arith) [] no_vectors

abbrev two_vectors : List (List ℕ)
two_vectors =
    vectors list_vectors list_vectors-IsVectorFifo floats (λ n. n) 0 10 20 10 20 50000 (omega arith)
      [] no_vectors
