-- ===== src/Queue/Bcl/System/Values.antt =====
-- How often a value is pushed, in whatever order the processes of BCLTests.cpp make their calls.
use rdma_project.Common.{
  ℕ, ◌+◌, ◌≡◌, ◌==◌, refl, ap, ◌∙◌, List, [], ◌∷◌, ◌++◌, map, arith, if◌then◌else◌,
}
use rdma_project.Queue.Bcl.{Call, barrier, push, pop}
use rdma_project.Queue.Bcl.Queues.{CircularQueue}
use rdma_project.Queue.Bcl.System.{System, Step, pushes, pops, passes, Reach, here, next}
use rdma_project.Queue.Bcl.System.Counts.{total, total-middle}

abbrev pub is_value : (v x : ℕ) → ℕ
is_value v x = if x == v then 1 else 0

-- How often `v` is in a list, and how often some calls push it.
abbrev pub count : ℕ → List ℕ → ℕ
count v [] = 0
count v (x ∷ xs) = is_value v x + count v xs

abbrev pub pushes_of : ℕ → List Call → ℕ
pushes_of v [] = 0
pushes_of v (push x ∷ p) = is_value v x + pushes_of v p
pushes_of v (_ ∷ p) = pushes_of v p

count-append : (v : ℕ) (xs ys : List ℕ) → count v (xs ++ ys) ≡ count v xs + count v ys
count-append v [] ys = omega arith
count-append v (x ∷ xs) ys = omega (arith, count-append v xs ys)

pushes_of-barrier :
    (v : ℕ) (qs : List (List Call))
    → total (pushes_of v) (map (◌∷◌ barrier) qs) ≡ total (pushes_of v) qs
pushes_of-barrier v [] = refl
pushes_of-barrier v (q ∷ qs) = omega (arith, pushes_of-barrier v qs)

module _ (Q : CircularQueue) (v : ℕ) where
  -- Pushes made and pushes to come.
  abbrev pub all_pushes : System Q → ℕ
  all_pushes s = count v s.pushed + total (pushes_of v) s.procs

  Step-all_pushes : {s t : System Q} → Step Q s t → all_pushes t ≡ all_pushes s
  Step-all_pushes {s} {t} (pushes before after x p e e' eq ep eo) = omega (
    arith,
    ap (count v) ep,
    count-append v s.pushed (x ∷ []),
    total-middle (pushes_of v) before after (push x ∷ p) p,
    ap (total (pushes_of v)) e,
    ap (total (pushes_of v)) e',
  )
  Step-all_pushes {s} {t} (pops before after p e e' eq ep eo) = omega (
    arith,
    ap (count v) ep,
    total-middle (pushes_of v) before after (pop ∷ p) p,
    ap (total (pushes_of v)) e,
    ap (total (pushes_of v)) e',
  )
  Step-all_pushes {s} {t} (passes e eq ep eo) =
      omega (arith, ap (count v) ep, ap (total (pushes_of v)) e, pushes_of-barrier v t.procs)

  pub Reach-all_pushes : {s t : System Q} → Reach Q s t → all_pushes t ≡ all_pushes s
  Reach-all_pushes here = refl
  Reach-all_pushes (next r st) = Step-all_pushes st ∙ Reach-all_pushes r
