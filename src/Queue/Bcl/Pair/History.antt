-- ===== src/Queue/Bcl/Pair/History.antt =====
-- An invariant of `master` and `worker` of BCLTests.cpp with the queue.
use rdma_project.Common.{
  ℕ, zero, suc, ◌+◌, ◌*◌, ◌≤◌, ◌<◌, ◌≡◌, refl, sym, ap, subst, ◌∙◌, List, [], ◌∷◌, ◌++◌, Option,
  none, some, length, take, drop, flatten, All, All-append, arith, append_assoc, append-nil,
  flatten-append, length-flatten, mul_le, length-append, take-append_of_eq, drop-append_of_eq,
}
use rdma_project.Queue.Bcl.Queues.{VectorQueue, IsVectorFifo}
use rdma_project.Queue.Bcl.Rounds.Bounds.{IsSized}
use rdma_project.Queue.Bcl.Pair.{
  Turn, by_master, by_worker, given_vectors, Pair, push_next, pop_next, turn, run, left_after,
}

pub given_vectors-append :
    (xs ys : List (Option (List ℕ)))
    → given_vectors (xs ++ ys) ≡ given_vectors xs ++ given_vectors ys
given_vectors-append [] ys = refl
given_vectors-append (none ∷ xs) ys = given_vectors-append xs ys
given_vectors-append (some v ∷ xs) ys = ap (◌∷◌ v) (given_vectors-append xs ys)

abbrev pub AllSized : ℕ → List (List ℕ) → Type 0
AllSized buf_size vs = All (λ v. length v ≡ buf_size) vs

module _ (Q : VectorQueue) (capacity : ℕ) (fifo : IsVectorFifo Q capacity) (buf_size : ℕ)
    (pushes : List (List ℕ)) where
  open fifo use {contents}

  -- The vectors to push are those that have been popped, those in the queue and those left, in this
  -- order; no push has failed.
  pub record Inv (p : Pair Q) : Type 0 where
    pub waiting : List (List ℕ)
    pub history : pushes ≡ given_vectors p.answers ++ (waiting ++ p.unpushed)
    pub held : contents p.queue ≡ flatten waiting
    pub accepted : p.refused ≡ 0
    pub popped : length (given_vectors p.answers) + p.left ≡ length pushes
    pub waiting_sized : AllSized buf_size waiting
    pub unpushed_sized : AllSized buf_size p.unpushed
    pub answers_sized : All (IsSized buf_size) p.answers

  module _ (room : length pushes * buf_size ≤ capacity) where
    -- There is room for the next vector.
    next_fits :
        (v : List ℕ) (vs : List (List ℕ)) (p : Pair Q)
        → p.unpushed ≡ v ∷ vs
        → (i : Inv p) → length v ≡ buf_size
        → length (contents p.queue) + length v ≤ capacity
    next_fits v vs p e i sized =
        let w = length i.waiting in
        let g = length (given_vectors p.answers) in
        let all : length pushes ≡ g + (w + suc (length vs)) =
          ap length i.history
          ∙ length-append (given_vectors p.answers) (i.waiting ++ p.unpushed)
          ∙ ap (λ n. g + n) (length-append i.waiting p.unpushed)
          ∙ ap (λ us. g + (w + length us)) e in
        let size : length (contents p.queue) ≡ w * buf_size =
          ap length i.held ∙ length-flatten buf_size i.waiting i.waiting_sized in
        omega
          (arith, room, size, sized, mul_le (suc w) (length pushes) buf_size (omega (arith, all)))

    push_next-Inv :
        (vs : List (List ℕ)) (p : Pair Q) → p.unpushed ≡ vs → Inv p → Inv (push_next Q vs p)
    unfolding push_next
    push_next-Inv [] p e i = i
    push_next-Inv (v ∷ vs) p e i =
        let sized : AllSized buf_size (v ∷ vs) = subst (AllSized buf_size) e i.unpushed_sized in
        let (ok, added) = fifo.push-contents v p.queue (next_fits v vs p e i sized.0) in
        record {
          waiting = i.waiting ++ v ∷ [];
          history =
              i.history
              ∙ ap (λ us. given_vectors p.answers ++ (i.waiting ++ us)) e
              ∙ ap (◌++◌ (given_vectors p.answers)) (sym (append_assoc i.waiting (v ∷ []) vs));
          held =
              added
              ∙ ap (λ q. q ++ v) i.held
              ∙ ap (◌++◌ (flatten i.waiting)) (sym (append-nil v))
              ∙ sym (flatten-append i.waiting (v ∷ []));
          accepted = rw ok i.accepted;
          popped = i.popped;
          waiting_sized = All-append _ i.waiting (v ∷ []) i.waiting_sized (sized.0, tt);
          unpushed_sized = sized.1;
          answers_sized = i.answers_sized;
        }

    -- An answer goes behind the ones before it.
    answered :
        (xs : List (Option (List ℕ))) (a : Option (List ℕ)) (r : List (List ℕ))
        → given_vectors (xs ++ a ∷ []) ++ r ≡ given_vectors xs ++ (given_vectors (a ∷ []) ++ r)
    answered xs a r =
        ap (λ g. g ++ r) (given_vectors-append xs (a ∷ []))
        ∙ append_assoc (given_vectors xs) (given_vectors (a ∷ [])) r

    length-answered :
        (xs : List (Option (List ℕ))) (a : Option (List ℕ))
        → length (given_vectors (xs ++ a ∷ []))
          ≡ length (given_vectors xs) + length (given_vectors (a ∷ []))
    length-answered xs a =
        ap length (given_vectors-append xs (a ∷ []))
        ∙ length-append (given_vectors xs) (given_vectors (a ∷ []))

    -- A pop gives nothing just when no vector is in the queue, and the oldest vector otherwise.
    pop_empty :
        (p : Pair Q)
        → 0 < buf_size
        → contents p.queue ≡ []
        → (Q.pop buf_size p.queue).0 ≡ none × (contents (Q.pop buf_size p.queue).1 ≡ [])
    pop_empty p pos e =
        let short : length (contents p.queue) < buf_size = omega (arith, ap length e) in
        let r = fifo.pop-none buf_size p.queue short in (r.0, r.1 ∙ e)

    pub pop_oldest :
        (v : List ℕ) (vs : List (List ℕ)) (p : Pair Q)
        → contents p.queue ≡ v ++ flatten vs
        → length v ≡ buf_size
        → (Q.pop buf_size p.queue).0 ≡ some v × (contents (Q.pop buf_size p.queue).1 ≡ flatten vs)
    pop_oldest v vs p e sized =
        let size : buf_size ≤ length (contents p.queue) =
          omega (arith, ap length e, length-append v (flatten vs), sized) in
        let r = fifo.pop-contents buf_size p.queue size in
        (
          r.0
              ∙ ap (λ q. some (take buf_size q)) e
              ∙ ap some (take-append_of_eq buf_size v (flatten vs) sized),
          r.1 ∙ ap (drop buf_size) e ∙ drop-append_of_eq buf_size v (flatten vs) sized,
        )

    -- What an answer is about: the vectors in the queue before and behind it, and the pops left.
    record Answer (p : Pair Q) (n : ℕ) (i : Inv p) (a : Option (List ℕ)) (q : Q.State)
        : Type 0 where
      behind : List (List ℕ)
      oldest : i.waiting ≡ given_vectors (a ∷ []) ++ behind
      holds : contents q ≡ flatten behind
      behind_sized : AllSized buf_size behind
      sized : IsSized buf_size a
      counted : length (given_vectors (a ∷ [])) + left_after Q a n ≡ suc n

    Answer-Inv :
        (p : Pair Q) (n : ℕ) (i : Inv p) (a : Option (List ℕ)) (q : Q.State)
        → p.left ≡ suc n
        → Answer p n i a q
        → Inv (record p { left = left_after Q a n; queue = q; answers = p.answers ++ a ∷ [] })
    Answer-Inv p n i a q e r = record {
      waiting = r.behind;
      history =
          i.history
          ∙ ap (λ w. given_vectors p.answers ++ (w ++ p.unpushed)) r.oldest
          ∙ ap (◌++◌ (given_vectors p.answers))
              (append_assoc (given_vectors (a ∷ [])) r.behind p.unpushed)
          ∙ sym (answered p.answers a (r.behind ++ p.unpushed));
      held = r.holds;
      accepted = i.accepted;
      popped = omega (arith, length-answered p.answers a, r.counted, i.popped, e);
      waiting_sized = r.behind_sized;
      unpushed_sized = i.unpushed_sized;
      answers_sized = All-append _ p.answers (a ∷ []) i.answers_sized (r.sized, tt);
    }

    pop-Answer :
        (n : ℕ) (p : Pair Q) (i : Inv p) (ws : List (List ℕ))
        → 0 < buf_size
        → i.waiting ≡ ws
        → Answer p n i (Q.pop buf_size p.queue).0 (Q.pop buf_size p.queue).1
    pop-Answer n p i [] pos e =
        let (none_yet, same) = pop_empty p pos (i.held ∙ ap flatten e) in
        subst (λ a. Answer p n i a (Q.pop buf_size p.queue).1) (sym none_yet)
          (record {
            behind = [];
            oldest = e;
            holds = same;
            behind_sized = tt;
            sized = tt;
            counted = omega arith;
          })
    pop-Answer n p i (v ∷ vs) pos e =
        let whole = subst (AllSized buf_size) e i.waiting_sized in
        let (gives, rest) = pop_oldest v vs p (i.held ∙ ap flatten e) whole.0 in
        subst (λ a. Answer p n i a (Q.pop buf_size p.queue).1) (sym gives)
          (record {
            behind = vs;
            oldest = e;
            holds = rest;
            behind_sized = whole.1;
            sized = whole.0;
            counted = omega arith;
          })

    pub pop_next-Inv :
        (n : ℕ) (p : Pair Q) → 0 < buf_size → p.left ≡ n → Inv p → Inv (pop_next Q buf_size n p)
    unfolding pop_next
    pop_next-Inv zero p pos e i = i
    pop_next-Inv (suc n) p pos e i = Answer-Inv p n i _ _ e (pop-Answer n p i i.waiting pos refl)

    turn-Inv : (t : Turn) (p : Pair Q) → 0 < buf_size → Inv p → Inv (turn Q buf_size t p)
    unfolding turn
    turn-Inv by_master p pos i = push_next-Inv p.unpushed p refl i
    turn-Inv by_worker p pos i = pop_next-Inv p.left p pos refl i

    pub run-Inv : (ts : List Turn) (p : Pair Q) → 0 < buf_size → Inv p → Inv (run Q buf_size ts p)
    unfolding run
    run-Inv [] p pos i = i
    run-Inv (t ∷ ts) p pos i = run-Inv ts (turn Q buf_size t p) pos (turn-Inv t p pos i)
