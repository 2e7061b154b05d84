-- ===== src/Rdma/Exclusive/Waits.antt =====
-- Tests whose client is polite and whose server is guarded: the server waits while the client reads or
-- writes.
use rdma_project.Common.{
  ℕ, ◌≡◌, ◌≢◌, refl, sym, ◌∙◌, subst, List, [], ◌∷◌, inl, inr, Bool, true, false,
}
use rdma_project.Rdma.Verbs.{Op, connect, accept, send, receive, read, write, randomize, clear}
use rdma_project.Rdma.System.{
  System, Move, sends, receives, alone, Step, client_moves, server_moves, meet, meet_swapped, Reach,
  here, next, start, is_local,
}
use rdma_project.Rdma.System.Dual.{comm, Dual, Dual-swap, Lags}
use rdma_project.Rdma.System.Safety.{Inv, Step-Inv, start-Inv}
use rdma_project.Rdma.Exclusive.{
  is_access, SendsNext, ReceivesNext, Polite, Guarded, Guarded-tail, Polite-local, Move-Guarded,
}

-- Who is ahead, and that no message is on its way to the server when the client has heard of it.
pub record Orderly (s : System) : Type 0 where
  pub inv : Inv s
  pub heard : Bool
  pub polite : Polite heard s.client
  pub settled : heard ≡ true → s.to_server ≡ []
  pub guarded : Guarded s.server

-- A message that has arrived at the client means that none is on its way to the server.
settled_lem : {s : System} {n : ℕ} {ns : List ℕ} → Inv s → s.to_client ≡ n ∷ ns → s.to_server ≡ []
settled_lem (inl a) e = absurd (cc (a.nothing))
settled_lem (inr a) e = a.nothing

-- Nor when the server is about to connect.
accept_lem : (ns : List ℕ) (p q : List Op) → Lags ns p (accept ∷ q) → ns ≡ []
accept_lem [] p q l = refl
accept_lem (n ∷ ns) p q l = absurd l

connect_lem : (ns : List ℕ) (p q : List Op) → Lags ns p (connect ∷ q) → ns ≡ []
connect_lem [] p q l = refl
connect_lem (n ∷ ns) p q l = absurd l

meet_lem : {s : System} {q : List Op} → Inv s → s.server ≡ accept ∷ q → s.to_server ≡ []
meet_lem {s} {q} (inl a) e =
    accept_lem s.to_server (comm s.client) (comm q)
      (subst (λ z. Lags s.to_server (comm s.client) (comm z)) e a.lags)
meet_lem (inr a) e = a.nothing

meet_swapped_lem : {s : System} {q : List Op} → Inv s → s.server ≡ connect ∷ q → s.to_server ≡ []
meet_swapped_lem {s} {q} (inl a) e =
    connect_lem s.to_server (comm s.client) (comm q)
      (subst (λ z. Lags s.to_server (comm s.client) (comm z)) e a.lags)
meet_swapped_lem (inr a) e = a.nothing

-- An end whose stream is empty leaves it so.
Move-nothing : {q q' : List Op} {o o' a a' : List ℕ} → Move q q' o o' a a' → a ≡ [] → a' ≡ []
Move-nothing (sends o n e eo ea) h = ea ∙ h
Move-nothing (receives c n e eo ea le) h = absurd (cc)
Move-nothing (alone op l e eo ea) h = ea ∙ h

pub Step-Orderly : {s t : System} → Step s t → Orderly s → Orderly t
Step-Orderly {s} {t} (client_moves (sends o n e eo ea) f) d = record {
  inv = Step-Inv (client_moves (sends o n e eo ea) f) d.inv;
  heard = false;
  polite = subst (Polite d.heard) e d.polite;
  settled = λ h. cc;
  guarded = rw f d.guarded;
}
Step-Orderly {s} {t} (client_moves (receives c n e eo ea le) f) d = record {
  inv = Step-Inv (client_moves (receives c n e eo ea le) f) d.inv;
  heard = true;
  polite = subst (Polite d.heard) e d.polite;
  settled = λ h. eo ∙ settled_lem d.inv ea;
  guarded = rw f d.guarded;
}
Step-Orderly {s} {t} (client_moves (alone op l e eo ea) f) d = record {
  inv = Step-Inv (client_moves (alone op l e eo ea) f) d.inv;
  heard = d.heard;
  polite = Polite-local d.heard op t.client l (subst (Polite d.heard) e d.polite);
  settled = λ h. eo ∙ d.settled h;
  guarded = rw f d.guarded;
}
Step-Orderly {s} {t} (server_moves m f) d = record {
  inv = Step-Inv (server_moves m f) d.inv;
  heard = d.heard;
  polite = rw f d.polite;
  settled = λ h. Move-nothing m (d.settled h);
  guarded = Move-Guarded m d.guarded;
}
Step-Orderly {s} {t} (meet ec es eo ei) d = record {
  inv = Step-Inv (meet ec es eo ei) d.inv;
  heard = true;
  polite = subst (Polite d.heard) ec d.polite;
  settled = λ h. eo ∙ meet_lem d.inv es;
  guarded = Guarded-tail accept t.server (subst Guarded es d.guarded);
}
Step-Orderly {s} {t} (meet_swapped ec es eo ei) d = record {
  inv = Step-Inv (meet_swapped ec es eo ei) d.inv;
  heard = true;
  polite = subst (Polite d.heard) ec d.polite;
  settled = λ h. eo ∙ meet_swapped_lem d.inv es;
  guarded = Guarded-tail connect t.server (subst Guarded es d.guarded);
}

-- A call of the client alone is no news to it.
pub alone_heard :
    {s t : System} (op : Op) (l : is_local op ≡ true) (e : s.client ≡ op ∷ t.client)
    (eo : t.to_server ≡ s.to_server) (ea : t.to_client ≡ s.to_client) (f : t.server ≡ s.server)
    (d : Orderly s)
    → (Step-Orderly (client_moves (alone op l e eo ea) f) d).heard ≡ d.heard
unfolding Step-Orderly
alone_heard op l e eo ea f d = refl

pub Reach-Orderly : {s t : System} → Orderly s → Reach s t → Orderly t
Reach-Orderly d here = d
Reach-Orderly d (next r st) = Step-Orderly st (Reach-Orderly d r)

-- What is left of a client that is about to access the buffer.
pub access_lem :
    (h : Bool) (op : Op) (p : List Op)
    → is_access op ≡ true
    → Polite h (op ∷ p)
    → (h ≡ true) × SendsNext (comm (op ∷ p))
access_lem h (read l r n) p e d = (d.0, d.1)
access_lem h (write l r n) p e d = (d.0, d.1)
access_lem h connect p e d = absurd (cc)
access_lem h accept p e d = absurd (cc)
access_lem h (send o n) p e d = absurd (cc)
access_lem h (receive c) p e d = absurd (cc)
access_lem h (randomize n) p e d = absurd (cc)
access_lem h (clear n) p e d = absurd (cc)

Dual-SendsNext : (p q : List Op) → Dual p q → SendsNext p → ReceivesNext q
Dual-SendsNext (send o n ∷ p) (receive c ∷ q) d s = tt
Dual-SendsNext (send o n ∷ p) _ d s = absurd d
Dual-SendsNext _ q d s = absurd s

Lags-SendsNext : (ns : List ℕ) (p q : List Op) → Lags ns q p → SendsNext p → Dual q p
Lags-SendsNext [] p q l s = l
Lags-SendsNext (n ∷ ns) (receive c ∷ p) q l s = absurd s
Lags-SendsNext (n ∷ ns) _ q l s = absurd l

-- The server has nothing to do but to receive.
server_lem :
    {s : System}
    → Inv s
    → s.to_server ≡ []
    → SendsNext (comm s.client)
    → ReceivesNext (comm s.server)
server_lem {s} (inl a) e told =
    Dual-SendsNext (comm s.client) (comm s.server)
      (subst (λ z. Lags z (comm s.client) (comm s.server)) e a.lags) told
server_lem {s} (inr a) e told =
    Dual-SendsNext (comm s.client) (comm s.server)
      (Dual-swap (comm s.server) (comm s.client)
        (Lags-SendsNext s.to_client (comm s.client) (comm s.server) a.lags told))
      told

local_lem :
    (op : Op) (q : List Op) → is_local op ≡ true → Guarded (op ∷ q) → ¬ ReceivesNext (comm (op ∷ q))
local_lem (read l r n) q e g w = g
local_lem (write l r n) q e g w = g
local_lem (randomize n) q e g w = g.0 w
local_lem (clear n) q e g w = g.0 w
local_lem connect q e g w = w
local_lem accept q e g w = w
local_lem (send o n) q e g w = w
local_lem (receive c) q e g w = cc

-- A server that waits for a message that is not there makes no move.
pub waiting_lem :
    {q q' : List Op} {o o' a a' : List ℕ}
    → Move q q' o o' a a'
    → Guarded q
    → ReceivesNext (comm q)
    → a ≢ []
waiting_lem (sends o n e _ _) g w h = subst (λ z. ReceivesNext (comm z)) e w
waiting_lem (receives c n e _ ea _) g w h = cc
waiting_lem {q} {q'} (alone op l e _ _) g w h =
    local_lem op q' l (subst Guarded e g) (subst (λ z. ReceivesNext (comm z)) e w)

pub start-Orderly :
    (p q : List Op) → Dual (comm p) (comm q) → Polite true p → Guarded q → Orderly (start p q)
start-Orderly p q d polite guarded = record {
  inv = start-Inv p q d;
  heard = true;
  polite = polite;
  settled = λ h. refl;
  guarded = guarded;
}

-- A client that has heard of the server and speaks next is waited for.
pub waits_lem :
    {s : System}
    → (d : Orderly s) → d.heard ≡ true
    → SendsNext (comm s.client)
    → ReceivesNext (comm s.server)
waits_lem d heard told = server_lem d.inv (d.settled heard) told

-- For a polite client and a guarded server whose messages match: in every state that they get to in
-- which the client's next call is a read or a write of the server's buffer, no step is one of the
-- server.
pub server_waits :
    (p q : List Op) {t u : System} {op : Op} {rest : List Op}
    → Dual (comm p) (comm q)
    → Polite true p
    → Guarded q
    → Reach (start p q) t
    → t.client ≡ op ∷ rest
    → is_access op ≡ true
    → Step t u
    → u.server ≡ t.server
server_waits p q {t} {u} {op} {rest} d polite guarded r next_call access st =
    let now = Reach-Orderly (start-Orderly p q d polite guarded) r in
    let (heard, told) =
      access_lem now.heard op rest access (subst (Polite now.heard) next_call now.polite) in
    let waits = waits_lem now heard (subst (λ z. SendsNext (comm z)) (sym next_call) told) in
    elim st [
      | client_moves m f ↦ f
      | server_moves m f ↦ absurd (waiting_lem m now.guarded waits (now.settled heard))
      | meet ec es _ _ ↦ absurd (subst (λ z. ReceivesNext (comm z)) es waits)
      | meet_swapped ec es _ _ ↦ absurd (subst (λ z. ReceivesNext (comm z)) es waits)
    ]
