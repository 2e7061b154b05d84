-- ===== src/Rdma/Quiet.antt =====
-- The messages of composed lists of calls.
use rdma_project.Common.{
  ℕ, zero, suc, ◌+◌, ◌/◌, ◌≡◌, refl, ◌∙◌, arith, List, [], ◌∷◌, ◌++◌, replicate, All, true,
}
use rdma_project.Rdma.Verbs.{Op, send, receive}
use rdma_project.Rdma.Client.Calls.{chunk_calls, transfer_calls, calls_for, read_at, write_at}
use rdma_project.Rdma.System.{is_local}
use rdma_project.Rdma.System.Dual.{comm, comm-append, Dual, Dual-append}
use rdma_project.Rdma.System.Safety.{comm_local}

pub Dual-comm_append :
    (p q p' q' : List Op)
    → Dual (comm p) (comm q)
    → Dual (comm p') (comm q')
    → Dual (comm (p ++ p')) (comm (q ++ q'))
Dual-comm_append p q p' q' d e =
    rw (comm-append p p', comm-append q q') (Dual-append (comm p) (comm q) (comm p') (comm q') d e)

-- Runs over chunk sizes fit if the tests for each size do.
pub Dual-calls_for :
    (P : ℕ → Type 0) (f g : ℕ → List Op) (sizes : List ℕ)
    → ((size : ℕ) → P size → Dual (comm (f size)) (comm (g size)))
    → All P sizes
    → Dual (comm (calls_for f sizes)) (comm (calls_for g sizes))
Dual-calls_for P f g [] each valid = tt
Dual-calls_for P f g (size ∷ sizes) each valid =
    Dual-comm_append (f size) (g size) _ _ (each size valid.0)
      (Dual-calls_for P f g sizes each valid.1)

pub comm-reads : (q size off : ℕ) → comm (chunk_calls read_at q size off) ≡ []
comm-reads zero size off = refl
comm-reads (suc q) size off = comm-reads q size (off + size)

pub comm-writes : (q size off : ℕ) → comm (chunk_calls write_at q size off) ≡ []
comm-writes zero size off = refl
comm-writes (suc q) size off = comm-writes q size (off + size)

pub comm-calls_for :
    (f : ℕ → List Op) (sizes : List ℕ)
    → ((size : ℕ) → comm (f size) ≡ [])
    → comm (calls_for f sizes) ≡ []
comm-calls_for f [] each = refl
comm-calls_for f (size ∷ sizes) each =
    rw (comm-append (f size) (calls_for f sizes), each size) (comm-calls_for f sizes each)

-- Neither end sends or receives anything until all the data are transferred.
pub quiet_lem :
    (f : ℕ → List Op) (sizes : List ℕ)
    → ((size : ℕ) → comm (f size) ≡ [])
    → comm (calls_for f sizes ++ send 0 1 ∷ []) ≡ send 0 1 ∷ []
quiet_lem f sizes each =
    rw (comm-append (calls_for f sizes) (send 0 1 ∷ []), comm-calls_for f sizes each) refl

pub comm-read : (n size : ℕ) → comm (transfer_calls read_at size n) ≡ []
comm-read n size =
    rw (comm-append (chunk_calls read_at (n / size) size 0) _, comm-reads (n / size) size 0) refl

pub comm-write : (n size : ℕ) → comm (transfer_calls write_at size n) ≡ []
comm-write n size =
    rw (comm-append (chunk_calls write_at (n / size) size 0) _, comm-writes (n / size) size 0) refl

pub comm-replicate : (op : Op) (n : ℕ) → is_local op ≡ true → comm (replicate n op) ≡ []
comm-replicate op zero h = refl
comm-replicate op (suc n) h = comm_local op (replicate n op) h ∙ comm-replicate op n h

-- As many messages of one size as receives of it.
pub Dual-replicate :
    (n size : ℕ) → Dual (comm (replicate n (send 0 size))) (comm (replicate n (receive size)))
Dual-replicate zero size = tt
Dual-replicate (suc n) size = (omega arith, Dual-replicate n size)
