-- ===== src/Queue/Bcl/System/Progress.antt =====
-- The processes of BCLTests.cpp do not wait for one another forever.
use rdma_project.Common.{
  ℕ, zero, suc, ◌+◌, ◌<◌, ◌≡◌, refl, ap, ◌∙◌, ◌⊎◌, inl, inr, List, [], ◌∷◌, ◌++◌, map, length, All,
  arith,
}
use rdma_project.Queue.Bcl.{Call, barrier, push, pop, exit}
use rdma_project.Queue.Bcl.Queues.{CircularQueue, IsFifo}
use rdma_project.Queue.Bcl.System.{System, Step, pushes, pops, passes, Reach, here, next}
use rdma_project.Queue.Bcl.System.Counts.{Popping, Pushing, Ready, IsDone, total, total-middle}
use rdma_project.Queue.Bcl.System.Phases.{ready, pushing, popping, done, Inv, Step-Inv}

-- A process that need not wait, and one at a barrier.
data Acts : List Call → Type 0 where
  to_push : (v : ℕ) (p : List Call) → Acts (push v ∷ p)
  to_pop : (p : List Call) → Acts (pop ∷ p)

abbrev Waits : List Call → Type 0
Waits p = (q : List Call) × (p ≡ barrier ∷ q)

Ready-cases : (p : List Call) → Ready p → Acts p ⊎ Waits p
Ready-cases [] a = absurd a
Ready-cases (barrier ∷ p) a = inr (p, refl)
Ready-cases (push v ∷ p) a = absurd a
Ready-cases (pop ∷ p) a = absurd a
Ready-cases (exit ∷ p) a = absurd a

Pushing-cases : (p : List Call) → Pushing p → Acts p ⊎ Waits p
Pushing-cases [] a = absurd a
Pushing-cases (pop ∷ p) a = absurd a
Pushing-cases (exit ∷ p) a = absurd a
Pushing-cases (push v ∷ p) a = inl (to_push v p)
Pushing-cases (barrier ∷ p) a = inr (p, refl)

Popping-cases : (p : List Call) → Popping p → Acts p ⊎ Waits p
Popping-cases [] a = absurd a
Popping-cases (push v ∷ p) a = absurd a
Popping-cases (exit ∷ p) a = absurd a
Popping-cases (pop ∷ p) a = inl (to_pop p)
Popping-cases (barrier ∷ p) a = inr (p, refl)

abbrev SomeActs : List (List Call) → Type 0
SomeActs ps =
    (before : List (List Call)) × (after : List (List Call)) × (p : List Call) × (ps
      ≡ before ++ p ∷ after)
    × Acts p

abbrev AllWait : List (List Call) → Type 0
AllWait ps = (qs : List (List Call)) × (ps ≡ map (◌∷◌ barrier) qs)

-- One of the processes can act, or all are at a barrier.
find_process :
    (P : List Call → Type 0) (ps : List (List Call))
    → ((p : List Call) → P p → Acts p ⊎ Waits p)
    → All P ps
    → SomeActs ps ⊎ AllWait ps
find_process P [] cases a = inr ([], refl)
find_process P (p ∷ ps) cases a = elim (cases p a.0) [
  | inl acts ↦ inl ([], ps, p, refl, acts)
  | inr (q, e) ↦ elim (find_process P ps cases a.1) [
    | inl (before, after, r, split, acts) ↦ inl (p ∷ before, after, r, ap (◌∷◌ p) split, acts)
    | inr (qs, es) ↦ inr (q ∷ qs, ap (λ z. z ∷ ps) e ∙ ap (◌∷◌ (barrier ∷ q)) es)
  ]
]

abbrev pub calls_left : List (List Call) → ℕ
calls_left ps = total length ps

calls_left-barrier :
    (qs : List (List Call)) → calls_left (map (◌∷◌ barrier) qs) ≡ calls_left qs + length qs
calls_left-barrier [] = refl
calls_left-barrier (q ∷ qs) = omega (arith, calls_left-barrier qs)

module _ (Q : CircularQueue) where
  Reach-cons : {s t u : System Q} → Step Q s t → Reach Q t u → Reach Q s u
  Reach-cons st here = next here st
  Reach-cons st (next r last) = next (Reach-cons st r) last

  -- A step that makes calls.
  abbrev Goes : System Q → Type 0
  Goes s = (t : System Q) × Step Q s t × (calls_left t.procs < calls_left s.procs)

  act :
      (s : System Q) (before after : List (List Call)) (p : List Call)
      → s.procs ≡ before ++ p ∷ after
      → Acts p
      → Goes s
  act s before after _ e (to_push v p) = (
    record {
      procs = before ++ p ∷ after;
      queue = (Q.push v s.queue).1;
      pushed = s.pushed ++ v ∷ [];
      popped = s.popped;
    },
    pushes before after v p e refl refl refl refl,
    omega (arith, total-middle length before after (push v ∷ p) p, ap calls_left e),
  )
  act s before after _ e (to_pop p) = (
    record {
      procs = before ++ p ∷ after;
      queue = (Q.pop s.queue).1;
      pushed = s.pushed;
      popped = s.popped ++ (Q.pop s.queue).0 ∷ [];
    },
    pops before after p e refl refl refl refl,
    omega (arith, total-middle length before after (pop ∷ p) p, ap calls_left e),
  )

  pass :
      (s : System Q) (qs : List (List Call))
      → s.procs ≡ map (◌∷◌ barrier) qs
      → All IsDone s.procs ⊎ Goes s
  pass s [] e = inl (rw e tt)
  pass s (q ∷ qs) e = inr (
    record s { procs = q ∷ qs },
    passes e refl refl refl,
    omega (arith, ap calls_left e, calls_left-barrier (q ∷ qs)),
  )

  go :
      (s : System Q) (P : List Call → Type 0)
      → ((p : List Call) → P p → Acts p ⊎ Waits p)
      → All P s.procs
      → All IsDone s.procs ⊎ Goes s
  go s P cases a = elim (find_process P s.procs cases a) [
    | inl (before, after, p, e, acts) ↦ inr (act s before after p e acts)
    | inr (qs, e) ↦ pass s qs e
  ]

  module _ (capacity : ℕ) (fifo : IsFifo Q capacity) where
    progress : (s : System Q) → Inv Q capacity fifo s → All IsDone s.procs ⊎ Goes s
    progress s i = elim i.stage [
      | ready a c ↦ go s Ready Ready-cases a
      | pushing a c ↦ go s Pushing Pushing-cases a
      | popping a c ↦ go s Popping Popping-cases a
      | done a c ↦ inl a
    ]

    pub finish :
        (k : ℕ) (s : System Q)
        → Inv Q capacity fifo s
        → calls_left s.procs < k
        → (t : System Q) × Reach Q s t × Inv Q capacity fifo t × All IsDone t.procs
    finish zero s i few = absurd (omega (arith, few))
    finish (suc k) s i few = elim (progress s i) [
      | inl all_done ↦ (s, here, i, all_done)
      | inr (t, st, fewer) ↦
          let (u, r, j, all_done) =
            finish k t (Step-Inv Q capacity fifo st i) (omega (arith, few, fewer)) in
          (u, Reach-cons st r, j, all_done)
    ]
