-- ===== src/Rdma/Exclusive/Copies.antt =====
-- The two registered buffers while client and server run: each step with what it does to them. The
-- messages of the one-sided runs have buffers of their own.
use rdma_project.Common.{
  ℕ, ◌≡◌, refl, List, [], ◌∷◌, ◌++◌, All, length, take, drop, overwrite, replicate,
}
use rdma_project.Rdma.Verbs.{Op, send, read, write, randomize, clear}
use rdma_project.Rdma.System.{System, alone, Step, client_moves, server_moves}
use rdma_project.Rdma.Memory.{after_reads, after_writes}

-- The client's buffer and the server's.
pub record Memory : Type 0 where
  pub ours : List ℕ
  pub theirs : List ℕ

-- What a call of the client that works on both does.
abbrev pub apply : Op → Memory → Memory
apply (read here there n) m = record m {
  ours = overwrite here (take n (drop there m.theirs)) m.ours;
}
apply (write here there n) m = record m {
  theirs = overwrite there (take n (drop here m.ours)) m.theirs;
}
apply _ m = m

abbrev pub applies : List Op → Memory → Memory
applies [] m = m
applies (op ∷ ops) m = applies ops (apply op m)

-- Which bytes are made is left open.
abbrev pub ClientEffect : Op → (m k : Memory) → Type 0
ClientEffect (randomize n) m k = (length k.ours ≡ n) × (k.theirs ≡ m.theirs)
ClientEffect (clear n) m k = (k.ours ≡ replicate n 0) × (k.theirs ≡ m.theirs)
ClientEffect op m k = k ≡ apply op m

abbrev swap : Memory → Memory
swap m = record { ours = m.theirs; theirs = m.ours }

abbrev pub Effect : {s t : System} → Step s t → (m k : Memory) → Type 0
Effect (client_moves (alone op _ _ _ _) _) m k = ClientEffect op m k
Effect (server_moves (alone op _ _ _ _) _) m k = ClientEffect op (swap m) (swap k)
Effect _ m k = k ≡ m

-- Some steps, from the state `s` with the memory `m`.
pub data Trace (s : System) (m : Memory) : System → Memory → Type 0 where
  stay : Trace s m s m
  go_on :
      {t u : System} {k l : Memory}
      → Trace s m t k
      → (st : Step t u) → Effect st k l
      → Trace s m u l

pub applies-append : (p q : List Op) (m : Memory) → applies (p ++ q) m ≡ applies q (applies p m)
applies-append [] q m = refl
applies-append (op ∷ p) q m = applies-append p q (apply op m)

-- Reads copy from the server's buffer, writes into it.
abbrev pub IsRead : Op → Type 0
IsRead (read l r n) = Unit {0}
IsRead _ = ⊥

abbrev pub IsWrite : Op → Type 0
IsWrite (write l r n) = Unit {0}
IsWrite _ = ⊥

pub applies-reads :
    (ops : List Op) (m : Memory)
    → All IsRead ops
    → applies ops m ≡ record m { ours = after_reads (ops ++ send 0 1 ∷ []) m.theirs m.ours }
applies-reads [] m a = refl
applies-reads (read l r n ∷ ops) m a = applies-reads ops (apply (read l r n) m) a.1
applies-reads (_ ∷ ops) m a = absurd a.0

pub applies-writes :
    (ops : List Op) (m : Memory)
    → All IsWrite ops
    → applies ops m ≡ record m { theirs = after_writes (ops ++ send 0 1 ∷ []) m.ours m.theirs }
applies-writes [] m a = refl
applies-writes (write l r n ∷ ops) m a = applies-writes ops (apply (write l r n) m) a.1
applies-writes (_ ∷ ops) m a = absurd a.0
