-- ===== src/Queue/Bcl/System/Phases.antt =====
-- The processes are all ready, all push, all pop, or are all done; what they push comes out again.
use rdma_project.Common.{
  nil_of_length, ℕ, ◌+◌, ◌*◌, ◌≤◌, ◌<◌, ◌≡◌, refl, sym, ap, ◌∙◌, subst, List, [], ◌∷◌, ◌++◌, map,
  length, All, arith, some, append_assoc, length-append,
}
use rdma_project.Queue.Bcl.{Call, barrier, push, pop}
use rdma_project.Queue.Bcl.Queues.{CircularQueue, IsFifo}
use rdma_project.Queue.Bcl.System.{System, Step, pushes, pops, passes, Reach, here, next}
use rdma_project.Queue.Bcl.System.Counts.{
  Popping, Pushing, push_count, pop_count, Ready, IsDone, total, total-middle, length-middle,
  All-middle, All-replace, total-barrier, length-barrier, Ready-barrier, Pushing-barrier,
  Popping-barrier, IsDone-barrier, total-IsDone, none_left, map-append,
}

module _ (Q : CircularQueue) (capacity : ℕ) (fifo : IsFifo Q capacity) where
  open fifo use {contents}

  pub data Stage (s : System Q) : Type 0 where
    ready : All Ready s.procs → contents s.queue ≡ [] → Stage s
    pushing :
        All Pushing s.procs
        → length (contents s.queue) + total push_count s.procs ≡ 5 * length s.procs
        → Stage s
    popping : All Popping s.procs → length (contents s.queue) ≡ total pop_count s.procs → Stage s
    done : All IsDone s.procs → contents s.queue ≡ [] → Stage s

  -- No pop has failed, and what has been pushed is what has been popped and what is in the queue, in
  -- order.
  pub record Inv (s : System Q) : Type 0 where
    pub stage : Stage s
    pub history : map some s.pushed ≡ s.popped ++ map some (contents s.queue)
    fits : 5 * length s.procs ≤ capacity

  -- In the stage that pushes there is room.
  push_room :
      {s : System Q} (before after : List (List Call)) (v : ℕ) (p : List Call)
      → Inv s
      → s.procs ≡ before ++ (push v ∷ p) ∷ after
      → length (contents s.queue) + total push_count s.procs ≡ 5 * length s.procs
      → length (contents s.queue) < capacity
  push_room before after v p i e many =
      let fewer = total-middle push_count before after (push v ∷ p) p in
      omega (arith, many, i.fits, ap (total push_count) e, fewer)

  module _ {s t : System Q} (i : Inv s) where
    push-Inv :
        (before after : List (List Call)) (v : ℕ) (p : List Call)
        → s.procs ≡ before ++ (push v ∷ p) ∷ after
        → t.procs ≡ before ++ p ∷ after
        → t.queue ≡ (Q.push v s.queue).1
        → t.pushed ≡ s.pushed ++ v ∷ []
        → t.popped ≡ s.popped
        → Inv t
    push-Inv before after v p e e' eq ep eo = elim i.stage [
      | ready a c ↦ absurd (All-middle Ready before after (push v ∷ p) (subst (All Ready) e a))
      | popping a c ↦
          absurd (All-middle Popping before after (push v ∷ p) (subst (All Popping) e a))
      | done a c ↦
          absurd (cc (All-middle IsDone before after (push v ∷ p) (subst (All IsDone) e a)))
      | pushing a many ↦
          let room = push_room before after v p i e many in
          let now : contents t.queue ≡ contents s.queue ++ v ∷ [] =
            ap contents eq ∙ (fifo.push-contents v s.queue room).1 in
          let fewer = total-middle push_count before after (push v ∷ p) p in
          let same = length-middle before after (push v ∷ p) p in
          record {
            stage =
                pushing
                  (subst (All Pushing) (sym e') (
                    All-replace Pushing before after (push v ∷ p) p (subst (All Pushing) e a)
                      (All-middle Pushing before after (push v ∷ p) (subst (All Pushing) e a))))
                  (omega (
                    arith,
                    many,
                    fewer,
                    same,
                    ap (total push_count) e,
                    ap (total push_count) e',
                    ap length e,
                    ap length e',
                    ap length now,
                    length-append (contents s.queue) (v ∷ []),
                  ));
            history =
                rw
                  (
                    ep,
                    eo,
                    now,
                    map-append s.pushed (v ∷ []),
                    map-append (contents s.queue) (v ∷ []),
                    i.history,
                  )
                  (append_assoc s.popped (map some (contents s.queue)) (some v ∷ []));
            fits = omega (arith, i.fits, same, ap length e, ap length e');
          }
    ]

    -- The pop of a queue that is not empty.
    pop_lem :
        (before after : List (List Call)) (p : List Call) (x : ℕ) (xs : List ℕ)
        → s.procs ≡ before ++ (pop ∷ p) ∷ after
        → t.procs ≡ before ++ p ∷ after
        → t.queue ≡ (Q.pop s.queue).1
        → t.pushed ≡ s.pushed
        → t.popped ≡ s.popped ++ (Q.pop s.queue).0 ∷ []
        → contents s.queue ≡ x ∷ xs
        → All Popping s.procs
        → length (contents s.queue) ≡ total pop_count s.procs
        → Inv t
    pop_lem before after p x xs e e' eq ep eo full a many =
        let (given, left) = fifo.pop-contents x xs s.queue full in
        let now : contents t.queue ≡ xs = ap contents eq ∙ left in
        let fewer = total-middle pop_count before after (pop ∷ p) p in
        let same = length-middle before after (pop ∷ p) p in
        record {
          stage =
              popping
                (subst (All Popping) (sym e') (
                  All-replace Popping before after (pop ∷ p) p (subst (All Popping) e a)
                    (All-middle Popping before after (pop ∷ p) (subst (All Popping) e a))))
                (omega (
                  arith,
                  many,
                  fewer,
                  ap (total pop_count) e,
                  ap (total pop_count) e',
                  ap length now,
                  ap length full,
                ));
          history =
              rw (ep, eo, now, given, i.history, full)
                (sym (append_assoc s.popped (some x ∷ []) (map some xs)));
          fits = omega (arith, i.fits, same, ap length e, ap length e');
        }

    pop-Inv :
        (before after : List (List Call)) (p : List Call) (held : List ℕ)
        → contents s.queue ≡ held
        → s.procs ≡ before ++ (pop ∷ p) ∷ after
        → t.procs ≡ before ++ p ∷ after
        → t.queue ≡ (Q.pop s.queue).1
        → t.pushed ≡ s.pushed
        → t.popped ≡ s.popped ++ (Q.pop s.queue).0 ∷ []
        → Inv t
    pop-Inv before after p held h e e' eq ep eo = elim i.stage [
      | ready a c ↦ absurd (All-middle Ready before after (pop ∷ p) (subst (All Ready) e a))
      | pushing a c ↦ absurd (All-middle Pushing before after (pop ∷ p) (subst (All Pushing) e a))
      | done a c ↦ absurd (cc (All-middle IsDone before after (pop ∷ p) (subst (All IsDone) e a)))
      | popping a many ↦
          elim held as (λ z. contents s.queue ≡ z → Inv t) [
            | [] ↦ λ none_left. absurd (
                omega (
                  arith,
                  many,
                  total-middle pop_count before after (pop ∷ p) p,
                  ap (total pop_count) e,
                  ap length none_left,
                ))
            | x ∷ xs ↦ λ full. pop_lem before after p x xs e e' eq ep eo full a many
          ]
            h
    ]

    barrier-Inv :
        s.procs ≡ map (◌∷◌ barrier) t.procs
        → t.queue ≡ s.queue
        → t.pushed ≡ s.pushed
        → t.popped ≡ s.popped
        → Inv t
    barrier-Inv e eq ep eo =
        let same = length-barrier t.procs in
        let next_stage : Stage t = elim i.stage [
          | ready a c ↦
              let (all_push, many) = Ready-barrier t.procs (subst (All Ready) e a) in
              pushing all_push (omega (arith, many, ap length (ap contents eq ∙ c)))
          | pushing a many ↦
              let (all_pop, more) = Pushing-barrier t.procs (subst (All Pushing) e a) in
              popping all_pop (
                omega (
                  arith,
                  many,
                  more,
                  same,
                  ap length e,
                  ap (total push_count) e,
                  ap length (ap contents eq),
                  total-barrier push_count t.procs (λ p. refl),
                ))
          | popping a many ↦ done (Popping-barrier t.procs (subst (All Popping) e a)) (
              ap contents eq
              ∙ nil_of_length (contents s.queue) (
                  omega (
                    arith,
                    many,
                    ap (total pop_count) e,
                    total-barrier pop_count t.procs (λ p. refl),
                  )))
          | done a c ↦ done (IsDone-barrier t.procs (subst (All IsDone) e a)) (ap contents eq ∙ c)
        ] in
        record {
          stage = next_stage;
          history = rw (ep, eo, eq) i.history;
          fits = omega (arith, i.fits, same, ap length e);
        }

  pub Step-Inv : {s t : System Q} → Step Q s t → Inv s → Inv t
  Step-Inv (pushes before after v p e e' eq ep eo) i = push-Inv i before after v p e e' eq ep eo
  Step-Inv (pops before after p e e' eq ep eo) i = pop-Inv i before after p _ refl e e' eq ep eo
  Step-Inv (passes e eq ep eo) i = barrier-Inv i e eq ep eo

  pub Reach-Inv : {s t : System Q} → Reach Q s t → Inv s → Inv t
  Reach-Inv here i = i
  Reach-Inv (next r st) i = Step-Inv st (Reach-Inv r i)

  pub Inv-start :
      (s : System Q)
      → All Ready s.procs
      → contents s.queue ≡ []
      → map some s.pushed ≡ s.popped ++ map some (contents s.queue)
      → 5 * length s.procs ≤ capacity
      → Inv s
  Inv-start s a e h f = record { stage = ready a e; history = h; fits = f }

  -- When all processes are done, the queue is empty.
  pub Inv-finished : {s : System Q} → Inv s → All IsDone s.procs → contents s.queue ≡ []
  Inv-finished {s} i finished = elim i.stage [
    | ready a e ↦ e
    | done a e ↦ e
    | popping a many ↦
        nil_of_length (contents s.queue)
          (omega (arith, many, total-IsDone pop_count s.procs refl finished))
    | pushing a many ↦
        nil_of_length (contents s.queue)
          (omega (arith, many, ap length (none_left Pushing s.procs (λ x. x) a finished)))
  ]
