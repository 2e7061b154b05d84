-- ===== src/Rdma/Exclusive.antt =====
-- One-sided access: while the client reads or writes the server's buffer, the server waits. The server
-- is not told of the reads and writes, so only the control messages around them keep it from
-- changing its buffer meanwhile.
pub mod Waits
pub mod Runs
pub mod Copies
pub mod Working
pub mod Transfers
mod Tests
use rdma_project.Common.{
  ℕ, ◌≤◌, ◌≡◌, ◌≢◌, refl, sym, ap, ◌∙◌, subst, List, [], ◌∷◌, ◌++◌, ◌⊎◌, inl, inr, Bool, true,
  false,
}
use rdma_project.Rdma.Verbs.{Op, connect, accept, send, receive, read, write, randomize, clear}
use rdma_project.Rdma.System.{
  System, Move, sends, receives, alone, Step, client_moves, server_moves, meet, meet_swapped, Reach,
  here, next, start, is_local,
}
use rdma_project.Rdma.System.Dual.{comm, Dual, Dual-swap, Lags}
use rdma_project.Rdma.System.Safety.{Ahead, Inv, Step-Inv, Reach-Inv, start-Inv}

abbrev pub is_access : Op → Bool
is_access (read l r n) = true
is_access (write l r n) = true
is_access _ = false

-- The next message is one that this end sends.
abbrev pub SendsNext : List Op → Type 0
SendsNext (send o n ∷ p) = Unit {0}
SendsNext _ = ⊥

abbrev pub ReceivesNext : List Op → Type 0
ReceivesNext (receive c ∷ p) = Unit {0}
ReceivesNext _ = ⊥

-- The client's calls. It accesses the server's buffer only when the server has answered since its own
-- last message (`heard`), and sends a message when it is done.
abbrev pub Polite : (heard : Bool) → List Op → Type 0
Polite h [] = Unit {0}
Polite h (connect ∷ p) = Polite true p
Polite h (accept ∷ p) = Polite true p
Polite h (send o n ∷ p) = Polite false p
Polite h (receive c ∷ p) = Polite true p
Polite h (read l r n ∷ p) = (h ≡ true) × SendsNext (comm p) × Polite h p
Polite h (write l r n ∷ p) = (h ≡ true) × SendsNext (comm p) × Polite h p
Polite h (randomize n ∷ p) = Polite h p
Polite h (clear n ∷ p) = Polite h p

-- The server's calls. It changes its buffer only when the next message is not one that it waits for.
abbrev pub Guarded : List Op → Type 0
Guarded [] = Unit {0}
Guarded (read l r n ∷ q) = ⊥
Guarded (write l r n ∷ q) = ⊥
Guarded (randomize n ∷ q) = ¬ ReceivesNext (comm q) × Guarded q
Guarded (clear n ∷ q) = ¬ ReceivesNext (comm q) × Guarded q
Guarded (_ ∷ q) = Guarded q

pub Guarded-tail : (op : Op) (q : List Op) → Guarded (op ∷ q) → Guarded q
Guarded-tail (read l r n) q g = absurd g
Guarded-tail (write l r n) q g = absurd g
Guarded-tail (randomize n) q g = g.1
Guarded-tail (clear n) q g = g.1
Guarded-tail connect q g = g
Guarded-tail accept q g = g
Guarded-tail (send o n) q g = g
Guarded-tail (receive c) q g = g

pub Polite-local :
    (h : Bool) (op : Op) (p : List Op) → is_local op ≡ true → Polite h (op ∷ p) → Polite h p
Polite-local h (read l r n) p e d = d.2
Polite-local h (write l r n) p e d = d.2
Polite-local h (randomize n) p e d = d
Polite-local h (clear n) p e d = d
Polite-local h connect p e d = absurd (cc)
Polite-local h accept p e d = absurd (cc)
Polite-local h (send o n) p e d = absurd (cc)
Polite-local h (receive c) p e d = absurd (cc)

-- A call of the client alone, in front of calls that are polite and lead to a message.
pub Polite-cons :
    (op : Op) (p : List Op)
    → is_local op ≡ true
    → SendsNext (comm p)
    → Polite true p
    → Polite true (op ∷ p)
Polite-cons (read l r n) p e told d = (refl, told, d)
Polite-cons (write l r n) p e told d = (refl, told, d)
Polite-cons (randomize n) p e told d = d
Polite-cons (clear n) p e told d = d
Polite-cons connect p e told d = absurd (cc)
Polite-cons accept p e told d = absurd (cc)
Polite-cons (send o n) p e told d = absurd (cc)
Polite-cons (receive c) p e told d = absurd (cc)

pub Move-Guarded :
    {q q' : List Op} {o o' a a' : List ℕ} → Move q q' o o' a a' → Guarded q → Guarded q'
Move-Guarded {q} {q'} (sends o n e _ _) g = Guarded-tail (send o n) q' (subst Guarded e g)
Move-Guarded {q} {q'} (receives c n e _ _ _) g = Guarded-tail (receive c) q' (subst Guarded e g)
Move-Guarded {q} {q'} (alone op l e _ _) g = Guarded-tail op q' (subst Guarded e g)
