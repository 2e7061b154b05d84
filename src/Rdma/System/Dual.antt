-- ===== src/Rdma/System/Dual.antt =====
-- Sessions that fit together: what one end sends the other receives, in the same order.
use rdma_project.Common.{ℕ, ◌≤◌, ◌≡◌, refl, ap, List, [], ◌∷◌, ◌++◌}
use rdma_project.Rdma.Verbs.{Op, connect, accept, send, receive, read, write, randomize, clear}

-- The calls in which an end depends on the other.
abbrev pub comm : List Op → List Op
comm [] = []
comm (connect ∷ p) = connect ∷ comm p
comm (accept ∷ p) = accept ∷ comm p
comm (send o n ∷ p) = send o n ∷ comm p
comm (receive c ∷ p) = receive c ∷ comm p
comm (read l r n ∷ p) = comm p
comm (write l r n ∷ p) = comm p
comm (randomize n ∷ p) = comm p
comm (clear n ∷ p) = comm p

pub comm-append : (p q : List Op) → comm (p ++ q) ≡ comm p ++ comm q
comm-append [] q = refl
comm-append (connect ∷ p) q = ap (◌∷◌ connect) (comm-append p q)
comm-append (accept ∷ p) q = ap (◌∷◌ accept) (comm-append p q)
comm-append (send o n ∷ p) q = ap (◌∷◌ (send o n)) (comm-append p q)
comm-append (receive c ∷ p) q = ap (◌∷◌ (receive c)) (comm-append p q)
comm-append (read l r n ∷ p) q = comm-append p q
comm-append (write l r n ∷ p) q = comm-append p q
comm-append (randomize n ∷ p) q = comm-append p q
comm-append (clear n ∷ p) q = comm-append p q

abbrev pub Dual : List Op → List Op → Type 0
Dual [] [] = Unit {0}
Dual (send o n ∷ p) (receive c ∷ q) = (n ≤ c) × Dual p q
Dual (receive c ∷ p) (send o n ∷ q) = (n ≤ c) × Dual p q
Dual (connect ∷ p) (accept ∷ q) = Dual p q
Dual (accept ∷ p) (connect ∷ q) = Dual p q
Dual _ _ = ⊥

pub Dual-append : (p q p' q' : List Op) → Dual p q → Dual p' q' → Dual (p ++ p') (q ++ q')
Dual-append [] [] p' q' d e = e
Dual-append (send o n ∷ p) (receive c ∷ q) p' q' d e = (d.0, Dual-append p q p' q' d.1 e)
Dual-append (receive c ∷ p) (send o n ∷ q) p' q' d e = (d.0, Dual-append p q p' q' d.1 e)
Dual-append (connect ∷ p) (accept ∷ q) p' q' d e = Dual-append p q p' q' d e
Dual-append (accept ∷ p) (connect ∷ q) p' q' d e = Dual-append p q p' q' d e
Dual-append _ _ p' q' d e = absurd d

pub Dual-swap : (p q : List Op) → Dual p q → Dual q p
Dual-swap [] [] d = tt
Dual-swap (send o n ∷ p) (receive c ∷ q) d = (d.0, Dual-swap p q d.1)
Dual-swap (receive c ∷ p) (send o n ∷ q) d = (d.0, Dual-swap p q d.1)
Dual-swap (connect ∷ p) (accept ∷ q) d = Dual-swap p q d
Dual-swap (accept ∷ p) (connect ∷ q) d = Dual-swap p q d
Dual-swap _ _ d = absurd d

-- `q` has the messages `ns` still to receive; from there on the two fit.
abbrev pub Lags : List ℕ → List Op → List Op → Type 0
Lags [] p q = Dual p q
Lags (n ∷ ns) p (receive c ∷ q) = (n ≤ c) × Lags ns p q
Lags (n ∷ ns) p _ = ⊥

pub Lags-send :
    (ns : List ℕ) (o n : ℕ) (p q : List Op) → Lags ns (send o n ∷ p) q → Lags (ns ++ n ∷ []) p q
Lags-send [] o n p (receive c ∷ q) d = d
Lags-send [] o n p _ d = absurd d
Lags-send (m ∷ ns) o n p (receive c ∷ q) d = (d.0, Lags-send ns o n p q d.1)
Lags-send (m ∷ ns) o n p _ d = absurd d
