-- ===== src/Rdma/System.antt =====
-- Client and server together: each makes its calls in order, and messages travel in two queues. A
-- send puts the message's length in a queue and need not wait for the peer; a receive takes the
-- oldest message, which must fit its buffer; `connect` and `accept` happen together, whichever end
-- makes which. In every other call an end acts alone.
pub mod Dual
pub mod Safety
use rdma_project.Common.{ℕ, ◌≤◌, ◌≡◌, List, [], ◌∷◌, ◌++◌, ◌⊎◌, Bool, true, false}
use rdma_project.Rdma.Verbs.{Op, connect, accept, send, receive, read, write, randomize, clear}

pub record System : Type 0 where
  pub client : List Op
  pub server : List Op
  pub to_server : List ℕ
  pub to_client : List ℕ

abbrev pub is_local : Op → Bool
is_local (read l r n) = true
is_local (write l r n) = true
is_local (randomize n) = true
is_local (clear n) = true
is_local _ = false

-- One end goes from `p` to `p'`, its outgoing queue from `out` to `out'`, its incoming one from
-- `arrived` to `arrived'`.
pub data Move (p p' : List Op) (out out' arrived arrived' : List ℕ) : Type 0 where
  sends :
      (offset n : ℕ)
      → p ≡ send offset n ∷ p'
      → out' ≡ out ++ n ∷ []
      → arrived' ≡ arrived
      → Move p p' out out' arrived arrived'
  receives :
      (capacity n : ℕ)
      → p ≡ receive capacity ∷ p'
      → out' ≡ out
      → arrived ≡ n ∷ arrived'
      → n ≤ capacity
      → Move p p' out out' arrived arrived'
  alone :
      (op : Op)
      → is_local op ≡ true
      → p ≡ op ∷ p'
      → out' ≡ out
      → arrived' ≡ arrived
      → Move p p' out out' arrived arrived'

pub data Step (s t : System) : Type 0 where
  client_moves :
      Move s.client t.client s.to_server t.to_server s.to_client t.to_client
      → t.server ≡ s.server
      → Step s t
  server_moves :
      Move s.server t.server s.to_client t.to_client s.to_server t.to_server
      → t.client ≡ s.client
      → Step s t
  meet :
      s.client ≡ connect ∷ t.client
      → s.server ≡ accept ∷ t.server
      → t.to_server ≡ s.to_server
      → t.to_client ≡ s.to_client
      → Step s t
  meet_swapped :
      s.client ≡ accept ∷ t.client
      → s.server ≡ connect ∷ t.server
      → t.to_server ≡ s.to_server
      → t.to_client ≡ s.to_client
      → Step s t

pub data Reach (s : System) : System → Type 0 where
  here : Reach s s
  next : {t u : System} → Reach s t → Step t u → Reach s u

-- Both ends have made all their calls, and no message is left over.
pub record IsFinished (s : System) : Type 0 where
  pub client_done : s.client ≡ []
  pub server_done : s.server ≡ []
  pub none_to_server : s.to_server ≡ []
  pub none_to_client : s.to_client ≡ []

-- Two tests that begin.
abbrev pub start : List Op → List Op → System
start p q = record { client = p; server = q; to_server = []; to_client = [] }
