-- ===== src/Rdma/System/Safety/Progress.antt =====
-- In a state of the invariant some end can move, unless both are done.
use rdma_project.Common.{
  ℕ, zero, suc, ◌+◌, ◌<◌, ◌≡◌, refl, ap, List, [], ◌∷◌, ◌++◌, ◌⊎◌, inl, inr, arith, length,
}
use rdma_project.Rdma.Verbs.{Op, connect, accept, send, receive, read, write, randomize, clear}
use rdma_project.Rdma.System.{
  System, Move, sends, receives, alone, Step, client_moves, server_moves, meet, meet_swapped, Reach,
  here, next, IsFinished, start,
}
use rdma_project.Rdma.System.Dual.{comm, Dual, Lags}
use rdma_project.Rdma.System.Safety.{Inv, Step-Inv, Reach-Inv, start-Inv}

-- What can happen next when the end with program `q` has the messages `out` still to receive.
data Next (p q : List Op) (out : List ℕ) : Type 0 where
  all_done : p ≡ [] → q ≡ [] → out ≡ [] → Next p q out
  first_moves : (p' : List Op) (out' : List ℕ) → Move p p' out out' [] [] → Next p q out
  second_moves : (q' : List Op) (back out' : List ℕ) → Move q q' [] back out out' → Next p q out
  they_meet : (p' q' : List Op) → p ≡ connect ∷ p' → q ≡ accept ∷ q' → Next p q out
  they_meet_swapped : (p' q' : List Op) → p ≡ accept ∷ p' → q ≡ connect ∷ q' → Next p q out

Next-of : (p q : List Op) (out : List ℕ) → Lags out (comm p) (comm q) → Next p q out
Next-of (read l r n ∷ p) q out d = first_moves p out (alone (read l r n) refl refl refl refl)
Next-of (write l r n ∷ p) q out d = first_moves p out (alone (write l r n) refl refl refl refl)
Next-of (randomize n ∷ p) q out d = first_moves p out (alone (randomize n) refl refl refl refl)
Next-of (clear n ∷ p) q out d = first_moves p out (alone (clear n) refl refl refl refl)
Next-of (send o n ∷ p) q out d = first_moves p (out ++ n ∷ []) (sends o n refl refl refl)
Next-of p (read l r n ∷ q) out d = second_moves q [] out (alone (read l r n) refl refl refl refl)
Next-of p (write l r n ∷ q) out d = second_moves q [] out (alone (write l r n) refl refl refl refl)
Next-of p (randomize n ∷ q) out d = second_moves q [] out (alone (randomize n) refl refl refl refl)
Next-of p (clear n ∷ q) out d = second_moves q [] out (alone (clear n) refl refl refl refl)
Next-of p (receive c ∷ q) (n ∷ ns) d = second_moves q [] ns (receives c n refl refl refl d.0)
Next-of [] [] [] d = all_done refl refl refl
Next-of (receive c ∷ p) (send o n ∷ q) [] d = second_moves q (n ∷ []) [] (sends o n refl refl refl)
Next-of (connect ∷ p) (accept ∷ q) [] d = they_meet p q refl refl
Next-of (accept ∷ p) (connect ∷ q) [] d = they_meet_swapped p q refl refl
Next-of _ _ [] d = absurd d
Next-of _ _ (n ∷ ns) d = absurd d

progress : (s : System) → Inv s → IsFinished s ⊎ ((t : System) × Step s t)
progress s (inl a) = elim (Next-of s.client s.server s.to_server a.lags) [
  | all_done p q o ↦
      inl (record {
        client_done = p;
        server_done = q;
        none_to_server = o;
        none_to_client = a.nothing;
      })
  | first_moves p' out' m ↦
      inr (record s { client = p'; to_server = out' }, client_moves (rw a.nothing m) refl)
  | second_moves q' back out' m ↦ inr (
    record s { server = q'; to_server = out'; to_client = back },
    server_moves (rw a.nothing m) refl,
  )
  | they_meet p' q' e f ↦ inr (record s { client = p'; server = q' }, meet e f refl refl)
  | they_meet_swapped p' q' e f ↦
      inr (record s { client = p'; server = q' }, meet_swapped e f refl refl)
]
progress s (inr a) = elim (Next-of s.server s.client s.to_client a.lags) [
  | all_done p q o ↦
      inl (record {
        client_done = q;
        server_done = p;
        none_to_server = a.nothing;
        none_to_client = o;
      })
  | first_moves p' out' m ↦
      inr (record s { server = p'; to_client = out' }, server_moves (rw a.nothing m) refl)
  | second_moves q' back out' m ↦ inr (
    record s { client = q'; to_client = out'; to_server = back },
    client_moves (rw a.nothing m) refl,
  )
  | they_meet p' q' e f ↦ inr (record s { client = q'; server = p' }, meet_swapped f e refl refl)
  | they_meet_swapped p' q' e f ↦ inr (record s { client = q'; server = p' }, meet f e refl refl)
]

-- The calls that are left fall with each step.
size : System → ℕ
size s = length s.client + length s.server

Move-length :
    {p p' : List Op} {o o' a a' : List ℕ} → Move p p' o o' a a' → length p ≡ suc (length p')
Move-length (sends o n e eo ea) = ap length e
Move-length (receives c n e eo ea le) = ap length e
Move-length (alone op l e eo ea) = ap length e

Step-size : {s t : System} → Step s t → size t < size s
unfolding size
Step-size (client_moves m e) = rw e (omega (arith, Move-length m))
Step-size (server_moves m e) = rw e (omega (arith, Move-length m))
Step-size (meet e f _ _) = omega (arith, ap length e, ap length f)
Step-size (meet_swapped e f _ _) = omega (arith, ap length e, ap length f)

prepend : {s t u : System} → Step s t → Reach t u → Reach s u
prepend st here = next here st
prepend st (next r last) = next (prepend st r) last

finish : (k : ℕ) (s : System) → Inv s → size s < k → (t : System) × Reach s t × IsFinished t
finish zero s inv fuel = absurd (omega arith)
finish (suc k) s inv fuel = elim (progress s inv) [
  | inl f ↦ (s, here, f)
  | inr (t, st) ↦
      let (u, r, f) = finish k t (Step-Inv st inv) (omega (arith, Step-size st)) in
      (u, prepend st r, f)
]

Reach-Reach : {s t u : System} → Reach s t → Reach t u → Reach s u
Reach-Reach r here = r
Reach-Reach r (next q st) = next (Reach-Reach r q) st

-- Two ends with dual sessions, in any order of their steps: whatever state `t` they have got to, a
-- step is possible unless both are finished and no message is left over.
pub no_deadlock :
    (p q : List Op) {t : System}
    → Dual (comm p) (comm q)
    → Reach (start p q) t
    → IsFinished t ⊎ ((u : System) × Step t u)
no_deadlock p q d r = progress _ (Reach-Inv (start-Inv p q d) r)

-- From any state that they get to they can finish.
pub finishes :
    (p q : List Op) {t : System}
    → Dual (comm p) (comm q)
    → Reach (start p q) t
    → (u : System) × Reach (start p q) u × Reach t u × IsFinished u
finishes p q {t} d r =
    let (u, more, f) = finish (suc (size t)) t (Reach-Inv (start-Inv p q d) r) (omega arith) in
    (u, Reach-Reach r more, more, f)
