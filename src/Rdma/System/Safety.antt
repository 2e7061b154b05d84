-- ===== src/Rdma/System/Safety.antt =====
-- Two ends whose sessions are dual never wait for one another forever, and end together.
pub mod Progress
use rdma_project.Common.{
  ℕ, ◌≤◌, ◌≡◌, refl, sym, ap, ◌∙◌, List, [], ◌∷◌, ◌++◌, ◌⊎◌, inl, inr, true, false, arith, subst,
}
use rdma_project.Rdma.Verbs.{Op, connect, accept, send, receive, read, write, randomize, clear}
use rdma_project.Rdma.System.{
  System, Move, sends, receives, alone, Step, client_moves, server_moves, meet, meet_swapped, Reach,
  here, next, is_local, start,
}
use rdma_project.Rdma.System.Dual.{comm, Dual, Dual-swap, Lags, Lags-send}

-- The end with program `p` is not behind: nothing waits for it, and the other end has the messages
-- `out` still to receive.
pub record Ahead (p q : List Op) (out arrived : List ℕ) : Type 0 where
  pub nothing : arrived ≡ []
  pub lags : Lags out (comm p) (comm q)

abbrev pub Inv : System → Type 0
Inv s =
    Ahead s.client s.server s.to_server s.to_client
    ⊎ Ahead s.server s.client s.to_client s.to_server

pub comm_local : (op : Op) (p : List Op) → is_local op ≡ true → comm (op ∷ p) ≡ comm p
comm_local connect p h = cc
comm_local accept p h = cc
comm_local (send o n) p h = cc
comm_local (receive c) p h = cc
comm_local _ p h = refl

Lags-behind_send :
    (ns : List ℕ) (o n : ℕ) (q p : List Op)
    → Lags ns q (send o n ∷ p)
    → (ns ≡ []) × Lags (n ∷ []) p q
Lags-behind_send [] o n (receive c ∷ q) p d = (refl, (d.0, Dual-swap q p d.1))
Lags-behind_send [] o n _ p d = absurd d
Lags-behind_send (m ∷ ns) o n q p d = absurd d

Lags-meet :
    (ns : List ℕ) (p q : List Op) → Lags ns (connect ∷ p) (accept ∷ q) → (ns ≡ []) × Dual p q
Lags-meet [] p q d = (refl, d)
Lags-meet (n ∷ ns) p q d = absurd d

Lags-meet_swap :
    (ns : List ℕ) (p q : List Op) → Lags ns (accept ∷ p) (connect ∷ q) → (ns ≡ []) × Dual p q
Lags-meet_swap [] p q d = (refl, d)
Lags-meet_swap (n ∷ ns) p q d = absurd d

module _ {p p' q : List Op} {out out' arrived arrived' : List ℕ} where
  Move-Ahead :
      Move p p' out out' arrived arrived' → Ahead p q out arrived → Ahead p' q out' arrived'
  Move-Ahead (sends o n e eo ea) a = record {
    nothing = ea ∙ a.nothing;
    lags =
        rw eo
          (Lags-send out o n (comm p') (comm q) (subst (λ z. Lags out (comm z) (comm q)) e a.lags));
  }
  Move-Ahead (receives c n e eo ea le) a = cc (sym ea ∙ a.nothing)
  Move-Ahead (alone op l e eo ea) a = record {
    nothing = ea ∙ a.nothing;
    lags = rw (eo, ← comm_local op p' l) (subst (λ z. Lags out (comm z) (comm q)) e a.lags);
  }

  Move-Behind :
      Move p p' out out' arrived arrived'
      → Ahead q p arrived out
      → Ahead q p' arrived' out' ⊎ Ahead p' q out' arrived'
  Move-Behind (sends o n e eo ea) a =
      let (none_left, d) =
        Lags-behind_send arrived o n (comm q) (comm p')
          (subst (λ z. Lags arrived (comm q) (comm z)) e a.lags) in
      inr (record { nothing = ea ∙ none_left; lags = rw (eo, a.nothing) d })
  Move-Behind (receives c n e eo ea le) a =
      let l : Lags (n ∷ arrived') (comm q) (receive c ∷ comm p') =
        subst (λ z. Lags z (comm q) (receive c ∷ comm p')) ea
          (subst (λ z. Lags arrived (comm q) (comm z)) e a.lags) in
      inl (record { nothing = eo ∙ a.nothing; lags = l.1 })
  Move-Behind (alone op l e eo ea) a = inl (record {
    nothing = eo ∙ a.nothing;
    lags = rw (ea, ← comm_local op p' l) (subst (λ z. Lags arrived (comm q) (comm z)) e a.lags);
  })

-- The invariant at programs that are known.
Lags-heads :
    (ns : List ℕ) {p p' q q' : List Op}
    → p ≡ p'
    → q ≡ q'
    → Lags ns (comm p) (comm q)
    → Lags ns (comm p') (comm q')
Lags-heads ns {p} {p'} {q} {q'} e f l =
    subst (λ z. Lags ns (comm p') (comm z)) f (subst (λ z. Lags ns (comm z) (comm q)) e l)

-- Every step keeps the two ends in agreement on what is still to be sent and received.
pub Step-Inv : {s t : System} → Step s t → Inv s → Inv t
Step-Inv (client_moves m e) (inl a) = inl (rw e (Move-Ahead m a))
Step-Inv (client_moves m e) (inr a) = elim (Move-Behind m a) [
  | inl b ↦ inr (rw e b)
  | inr b ↦ inl (rw e b)
]
Step-Inv (server_moves m e) (inl a) = elim (Move-Behind m a) [
  | inl b ↦ inl (rw e b)
  | inr b ↦ inr (rw e b)
]
Step-Inv (server_moves m e) (inr a) = inr (rw e (Move-Ahead m a))
Step-Inv {s} {t} (meet ec es eo ei) (inl a) =
    let (none_left, d) =
      Lags-meet s.to_server (comm t.client) (comm t.server) (Lags-heads s.to_server ec es a.lags) in
    inl (record { nothing = ei ∙ a.nothing; lags = rw (eo, none_left) d })
Step-Inv {s} {t} (meet ec es eo ei) (inr a) =
    let (none_left, d) =
      Lags-meet_swap s.to_client (comm t.server) (comm t.client)
        (Lags-heads s.to_client es ec a.lags) in
    inr (record { nothing = eo ∙ a.nothing; lags = rw (ei, none_left) d })
Step-Inv {s} {t} (meet_swapped ec es eo ei) (inl a) =
    let (none_left, d) =
      Lags-meet_swap s.to_server (comm t.client) (comm t.server)
        (Lags-heads s.to_server ec es a.lags) in
    inl (record { nothing = ei ∙ a.nothing; lags = rw (eo, none_left) d })
Step-Inv {s} {t} (meet_swapped ec es eo ei) (inr a) =
    let (none_left, d) =
      Lags-meet s.to_client (comm t.server) (comm t.client) (Lags-heads s.to_client es ec a.lags) in
    inr (record { nothing = eo ∙ a.nothing; lags = rw (ei, none_left) d })

pub Reach-Inv : {s t : System} → Inv s → Reach s t → Inv t
Reach-Inv h here = h
Reach-Inv h (next r st) = Step-Inv st (Reach-Inv h r)

pub start-Inv : (p q : List Op) → Dual (comm p) (comm q) → Inv (start p q)
start-Inv p q d = inl (record { nothing = refl; lags = d })
