-- ===== src/Queue/Bcl/Pair/Drain.antt =====
-- With enough turns of `master` and of `worker` of BCLTests.cpp all vectors go through the queue.
use rdma_project.Common.{
  ℕ, zero, suc, ◌+◌, ◌-◌, ◌*◌, ◌≤◌, ◌<◌, ◌≡◌, refl, sym, ap, subst, ◌∙◌, List, [], ◌∷◌, ◌++◌,
  length, flatten, arith, length-append, append-nil, nil_of_length,
}
use rdma_project.Queue.Bcl.Queues.{VectorQueue, IsVectorFifo}
use rdma_project.Queue.Bcl.Pair.{
  Turn, by_master, by_worker, master_turns, worker_turns, given_vectors, Pair, push_next, pop_next,
  turn, run, left_after, start,
}
use rdma_project.Queue.Bcl.Pair.History.{AllSized, Inv, run-Inv, pop_oldest, pop_next-Inv}

run-append :
    (Q : VectorQueue) (buf_size : ℕ) (ts us : List Turn) (p : Pair Q)
    → run Q buf_size (ts ++ us) p ≡ run Q buf_size us (run Q buf_size ts p)
unfolding run
run-append Q buf_size [] us p = refl
run-append Q buf_size (t ∷ ts) us p = run-append Q buf_size ts us (turn Q buf_size t p)

-- The master pushes one vector in each turn until none is left.
push_next-unpushed :
    (Q : VectorQueue) (vs : List (List ℕ)) (p : Pair Q)
    → p.unpushed ≡ vs
    → length (push_next Q vs p).unpushed ≡ length vs - 1
unfolding push_next
push_next-unpushed Q [] p e = ap length e
push_next-unpushed Q (v ∷ vs) p e = omega arith

pop_next-unpushed :
    (Q : VectorQueue) (buf_size n : ℕ) (p : Pair Q)
    → (pop_next Q buf_size n p).unpushed ≡ p.unpushed
unfolding pop_next
pop_next-unpushed Q buf_size zero p = refl
pop_next-unpushed Q buf_size (suc n) p = refl

run-unpushed :
    (Q : VectorQueue) (buf_size : ℕ) (ts : List Turn) (p : Pair Q)
    → length (run Q buf_size ts p).unpushed ≡ length p.unpushed - master_turns ts
unfolding run turn
run-unpushed Q buf_size [] p = omega arith
run-unpushed Q buf_size (by_master ∷ ts) p = omega (
  arith,
  run-unpushed Q buf_size ts (push_next Q p.unpushed p),
  push_next-unpushed Q p.unpushed p refl,
)
run-unpushed Q buf_size (by_worker ∷ ts) p = omega (
  arith,
  run-unpushed Q buf_size ts (pop_next Q buf_size p.left p),
  ap length (pop_next-unpushed Q buf_size p.left p),
)

module _ (Q : VectorQueue) (capacity : ℕ) (fifo : IsVectorFifo Q capacity) (buf_size : ℕ)
    (pushes : List (List ℕ)) (pos : 0 < buf_size) (room : length pushes * buf_size ≤ capacity) where
  open fifo use {contents}

  abbrev Holds : Pair Q → Type 0
  Holds = Inv Q capacity fifo buf_size pushes

  pub begin-Inv :
      (n : ℕ) (q : Q.State)
      → contents q ≡ []
      → AllSized buf_size pushes
      → length pushes ≡ n
      → Holds (start Q pushes n q)
  begin-Inv n q empty sized many = record {
    waiting = [];
    history = refl;
    held = empty;
    accepted = refl;
    popped = omega (arith, many);
    waiting_sized = tt;
    unpushed_sized = sized;
    answers_sized = tt;
  }

  -- What has been popped, is in the queue and is left to push makes up what there was to push.
  all_counted : (p : Pair Q) (i : Holds p) → p.unpushed ≡ [] → length i.waiting ≡ p.left
  all_counted p i e =
      let split =
        ap length i.history
        ∙ length-append (given_vectors p.answers) (i.waiting ++ p.unpushed)
        ∙ ap (λ n. length (given_vectors p.answers) + n) (length-append i.waiting p.unpushed) in
      omega (arith, split, ap length e, i.popped)

  -- When the master has pushed all its vectors, each turn of the worker gives one until none is left.
  pop_next-left :
      (n : ℕ) (p : Pair Q) (i : Holds p) (ws : List (List ℕ))
      → i.waiting ≡ ws
      → length ws ≡ n
      → p.left ≡ n
      → (pop_next Q buf_size n p).left ≡ n - 1
  unfolding pop_next
  pop_next-left zero p i ws e many now_left = now_left
  pop_next-left (suc n) p i [] e many now_left = absurd (omega arith)
  pop_next-left (suc n) p i (v ∷ vs) e many now_left =
      let sized = subst (AllSized buf_size) e i.waiting_sized in
      let gives =
        (pop_oldest Q capacity fifo buf_size pushes room v vs p (i.held ∙ ap flatten e)
          sized.0).0 in
      ap (λ a. left_after Q a n) gives ∙ omega arith

  run-left :
      (ts : List Turn) (p : Pair Q)
      → Holds p
      → p.unpushed ≡ []
      → (run Q buf_size ts p).left ≡ p.left - worker_turns ts
  unfolding run turn push_next
  run-left [] p i e = omega arith
  run-left (by_master ∷ ts) p i e =
      ap (λ us. (run Q buf_size ts (push_next Q us p)).left) e ∙ run-left ts p i e
  run-left (by_worker ∷ ts) p i e =
      let later =
        run-left ts (pop_next Q buf_size p.left p)
          (pop_next-Inv Q capacity fifo buf_size pushes room p.left p pos refl i)
          (pop_next-unpushed Q buf_size p.left p ∙ e) in
      let one = pop_next-left p.left p i i.waiting refl (all_counted p i e) refl in
      omega (arith, later, one)

  -- With enough turns of the master, and then of the worker, everything has gone through the queue.
  pub drained :
      (before after : List Turn) (p : Pair Q)
      → Holds p
      → length p.unpushed ≤ master_turns before
      → length pushes ≤ worker_turns after
      → (given_vectors (run Q buf_size (before ++ after) p).answers ≡ pushes)
        × (contents (run Q buf_size (before ++ after) p).queue ≡ [])
  drained before after p i m w =
      let half = run Q buf_size before p in
      let half-Inv = run-Inv Q capacity fifo buf_size pushes room before p pos i in
      let end = run Q buf_size after half in
      let i' = run-Inv Q capacity fifo buf_size pushes room after half pos half-Inv in
      let none_unpushed =
        nil_of_length half.unpushed (omega (arith, run-unpushed Q buf_size before p, m)) in
      let none_left = run-left after half half-Inv none_unpushed in
      let unpushed' =
        nil_of_length end.unpushed
          (omega (arith, run-unpushed Q buf_size after half, ap length none_unpushed)) in
      let none_waiting =
        nil_of_length i'.waiting
          (omega (arith, all_counted end i' unpushed', none_left, half-Inv.popped, w)) in
      rw (run-append Q buf_size before after p) (
        sym (
            i'.history
            ∙ ap (λ ws. given_vectors end.answers ++ (ws ++ end.unpushed)) none_waiting
            ∙ ap (◌++◌ (given_vectors end.answers)) unpushed'
            ∙ append-nil (given_vectors end.answers)),
        i'.held ∙ ap flatten none_waiting,
      )
