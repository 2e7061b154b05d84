-- ===== src/Rdma/Surplus.antt =====
-- The two-sided throughput test when the data end with a full chunk.
use rdma_project.Common.{
  ℕ, zero, suc, ◌+◌, ◌-◌, ◌/◌, ◌%◌, ◌<◌, ◌^◌, ◌≡◌, refl, ap, true, List, [], ◌∷◌, ◌++◌, arith,
  length, replicate, length-append,
}
use rdma_project.Measure.{Floating}
use rdma_project.Rdma.Verbs.{Op, send, receive, connect, accept}
use rdma_project.Rdma.Client
use rdma_project.Rdma.Client.Calls as ClientCalls
use rdma_project.Rdma.Client.Calls.{chunk_calls, transfer_calls}
use rdma_project.Rdma.Server
use rdma_project.Rdma.Server.Calls as ServerCalls
use rdma_project.Rdma.Agreement.{empty, calls_of, calls_of-Emits}
use rdma_project.Rdma.System.{
  System, Move, sends, receives, alone, Step, client_moves, server_moves, meet, meet_swapped, Reach,
  here, next, IsFinished, start, is_local,
}

-- Messages that a list of calls sends, and receives.
abbrev pub sent : List Op → ℕ
sent [] = 0
sent (send o n ∷ p) = suc (sent p)
sent (_ ∷ p) = sent p

abbrev pub received : List Op → ℕ
received [] = 0
received (receive c ∷ p) = suc (received p)
received (_ ∷ p) = received p

local_counts :
    (op : Op) (p : List Op)
    → is_local op ≡ true
    → (sent (op ∷ p) ≡ sent p) × (received (op ∷ p) ≡ received p)
local_counts connect p h = cc
local_counts accept p h = cc
local_counts (send o n) p h = cc
local_counts (receive c) p h = cc
local_counts _ p h = (refl, refl)

module _ {p p' : List Op} {o o' a a' : List ℕ} where
  Move-received : Move p p' o o' a a' → received p + length a' ≡ received p' + length a
  Move-received (sends off n e eo ea) = rw (e, ea) refl
  Move-received (receives c n e eo ea le) = rw (e, ea) (omega arith)
  Move-received (alone op l e eo ea) = rw (e, ea) (omega (arith, (local_counts op p' l).1))

  Move-sent : Move p p' o o' a a' → sent p + length o ≡ sent p' + length o'
  Move-sent (sends off n e eo ea) = rw (e, eo) (omega (arith, length-append o (n ∷ [])))
  Move-sent (receives c n e eo ea le) = rw (e, eo) refl
  Move-sent (alone op l e eo ea) = rw (e, eo) (omega (arith, (local_counts op p' l).0))

-- Messages that the server has sent or will send, less those that the client will receive.
abbrev Surplus : ℕ → System → Type 0
Surplus k s = sent s.server + length s.to_client ≡ received s.client + k

Step-Surplus : (k : ℕ) {s t : System} → Step s t → Surplus k s → Surplus k t
Step-Surplus k (client_moves m e) h = omega (arith, Move-received m, ap sent e)
Step-Surplus k (server_moves m e) h = omega (arith, Move-sent m, ap received e)
Step-Surplus k (meet c v o a) h = omega (arith, ap sent v, ap received c, ap length a)
Step-Surplus k (meet_swapped c v o a) h = omega (arith, ap sent v, ap received c, ap length a)

Reach-Surplus : (k : ℕ) {s t : System} → Surplus k s → Reach s t → Surplus k t
Reach-Surplus k h here = h
Reach-Surplus k h (next r st) = Step-Surplus k st (Reach-Surplus k h r)

IsFinished-Surplus : {t : System} → IsFinished t → ¬ Surplus 1 t
IsFinished-Surplus f h =
    omega (arith, ap sent f.server_done, ap received f.client_done, ap length f.none_to_client)

sent-append : (p q : List Op) → sent (p ++ q) ≡ sent p + sent q
sent-append [] q = omega arith
sent-append (send o n ∷ p) q = omega (arith, sent-append p q)
sent-append (_ ∷ p) q = sent-append p q

received-receives :
    (q size : ℕ) (p : List Op) → received (replicate q (receive size) ++ p) ≡ q + received p
received-receives zero size p = omega arith
received-receives (suc q) size p = omega (arith, received-receives q size p)

sent-chunks : (q size off : ℕ) → sent (chunk_calls send q size off) ≡ q
sent-chunks zero size off = refl
sent-chunks (suc q) size off = ap suc (sent-chunks q size (off + size))

sent-two_sided : (size n : ℕ) → sent (ServerCalls.two_sided_calls size n) ≡ n / size + 1
sent-two_sided size n = omega (
  arith,
  sent-append (transfer_calls send size n) (receive 1 ∷ []),
  sent-append (chunk_calls send (n / size) size 0) (send (n - n % size) (n % size) ∷ []),
  sent-chunks (n / size) size 0,
)

one_more :
    (size n : ℕ)
    → 0 < size
    → 0 < n
    → n % size ≡ 0
    → sent (ServerCalls.two_sided_calls size n) + 0
      ≡ received (ClientCalls.two_sided_calls size (suc ((n - 1) / size))) + 1
one_more size n pos some_data even =
    let chunks : suc ((n - 1) / size) ≡ n / size = grind arith in
    let receives = received-receives (suc ((n - 1) / size)) size (send 0 1 ∷ []) in
    let sends = sent-two_sided size n in omega (arith, chunks, receives, sends)

module _ (clock : ℕ → ℕ) (F : Floating) (size n : ℕ) where
  -- The two-sided throughput test for one chunk size, as client and server make it.
  abbrev pub client_calls : List Op
  client_calls = calls_of (Client.two_sided_tp_test clock F size n empty)

  abbrev pub server_calls : List Op
  server_calls = calls_of (Server.two_sided_tp_test size n empty)

  -- When the data are a multiple of the chunk size (both above 0, and with room in a `size_t`), the
  -- server still sends a chunk more, an empty one, and the client does not receive it: in no order of
  -- the steps does the test get to a state with every call made and no message left over.
  pub two_sided_tp_test_unfinished :
      {t : System}
      → 0 < size
      → 0 < n
      → n + size < 2 ^ 64
      → n % size ≡ 0
      → Reach (start client_calls server_calls) t
      → ¬ IsFinished t
  two_sided_tp_test_unfinished pos some_data room even r f =
      IsFinished-Surplus f (Reach-Surplus 1 surplus r)
    where
      surplus : Surplus 1 (start client_calls server_calls)
      surplus =
          rw
            (
              calls_of-Emits (
                  ClientCalls.two_sided_tp_test-two_sided_calls clock F size n empty pos some_data
                    room),
              calls_of-Emits (ServerCalls.two_sided_tp_test-server_calls size n empty pos room),
            )
            (one_more size n pos some_data even)
