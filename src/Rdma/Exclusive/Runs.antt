-- ===== src/Rdma/Exclusive/Runs.antt =====
-- The one-sided runs of the two classes.
use rdma_project.Common.{
  ℕ, zero, suc, ◌+◌, ◌/◌, ◌<◌, ◌^◌, ◌≡◌, refl, List, [], ◌∷◌, ◌++◌, true, false, Bool, append_assoc,
  All, All-append, All-replicate,
}
use rdma_project.Settings.{buffer_sizes, latency_buffer_sizes, num_loops}
use rdma_project.Measure.{Floating}
use rdma_project.Rdma.Verbs.{Op, send, receive, read, write, randomize, clear}
use rdma_project.Rdma.Client
use rdma_project.Rdma.Client.Calls as ClientCalls
use rdma_project.Rdma.Client.Calls.{chunk_calls, transfer_calls, calls_for, read_at, write_at}
use rdma_project.Rdma.Client.Latency as ClientLatency
use rdma_project.Rdma.Server
use rdma_project.Rdma.Server.Calls as ServerCalls
use rdma_project.Rdma.Server.Calls.{serve_calls}
use rdma_project.Rdma.Server.Latency as ServerLatency
use rdma_project.Rdma.Agreement as Throughput
use rdma_project.Rdma.Agreement.{empty, calls_of, calls_of-Emits}
use rdma_project.Rdma.Latency as Latency
use rdma_project.Rdma.System.{System, Step, Reach, start, is_local}
use rdma_project.Rdma.System.Dual.{comm, Dual}
use rdma_project.Rdma.System.Safety.{comm_local}
use rdma_project.Rdma.Exclusive.{is_access, SendsNext, Polite, Guarded, Polite-cons}
use rdma_project.Rdma.Exclusive.Waits.{server_waits, Orderly, start-Orderly, Reach-Orderly}

-- The runs in which only the client works on the data.
pub data OneSided : Type 0 where
  read_throughput write_throughput : (data_size : ℕ) → OneSided
  read_latency write_latency : OneSided

-- Calls in which the client acts alone.
abbrev IsLocal : Op → Type 0
IsLocal op = is_local op ≡ true

abbrev AreLocal : List Op → Type 0
AreLocal ops = All IsLocal ops

AreLocal-chunk_calls :
    (call : ℕ → ℕ → Op) (q size off : ℕ)
    → ((o m : ℕ) → IsLocal (call o m))
    → AreLocal (chunk_calls call q size off)
AreLocal-chunk_calls call zero size off local = tt
AreLocal-chunk_calls call (suc q) size off local =
    (local off size, AreLocal-chunk_calls call q size (off + size) local)

AreLocal-transfer_calls :
    (call : ℕ → ℕ → Op) (size n : ℕ)
    → ((o m : ℕ) → IsLocal (call o m))
    → AreLocal (transfer_calls call size n)
AreLocal-transfer_calls call size n local =
    All-append IsLocal (chunk_calls call (n / size) size 0) _
      (AreLocal-chunk_calls call (n / size) size 0 local) (local _ _, tt)

-- In front of a message that the client sends.
Polite-append :
    (p rest : List Op)
    → AreLocal p
    → SendsNext (comm rest)
    → Polite true rest
    → Polite true (p ++ rest) × SendsNext (comm (p ++ rest))
Polite-append [] rest a told polite = (polite, told)
Polite-append (op ∷ p) rest a told polite =
    let (more, sends_next) = Polite-append p rest a.1 told polite in
    (Polite-cons op (p ++ rest) a.0 sends_next more, rw (comm_local op (p ++ rest) a.0) sends_next)

-- A test between two control messages, and the calls `last` behind it.
Polite-test :
    (h : Bool) (p last rest : List Op)
    → AreLocal p
    → Polite false (last ++ rest)
    → Polite h ((receive 1 ∷ (p ++ send 0 1 ∷ last)) ++ rest)
Polite-test h p last rest a polite =
    rw (append_assoc p (send 0 1 ∷ last) rest)
      (Polite-append p (send 0 1 ∷ (last ++ rest)) a tt polite).0

Polite-calls_for :
    (f : ℕ → List Op) (sizes : List ℕ) (rest : List Op)
    → ((h : Bool) (size : ℕ) (more : List Op)
        → ((k : Bool) → Polite k more)
        → Polite h (f size ++ more))
    → ((k : Bool) → Polite k rest)
    → (h : Bool) → Polite h (calls_for f sizes ++ rest)
Polite-calls_for f [] rest each polite h = polite h
Polite-calls_for f (size ∷ sizes) rest each polite h =
    rw (append_assoc (f size) (calls_for f sizes) rest)
      (each h size (calls_for f sizes ++ rest) (Polite-calls_for f sizes rest each polite))

AreLocal-calls_for :
    (f : ℕ → List Op) (sizes : List ℕ)
    → ((size : ℕ) → AreLocal (f size))
    → AreLocal (calls_for f sizes)
AreLocal-calls_for f [] each = tt
AreLocal-calls_for f (size ∷ sizes) each =
    All-append IsLocal (f size) (calls_for f sizes) (each size) (AreLocal-calls_for f sizes each)

-- The client's calls in each run, and the server's.
abbrev pub client_run : OneSided → List Op
client_run (read_throughput n) = ClientCalls.read_run n
client_run (write_throughput n) = ClientCalls.write_run n
client_run read_latency = ClientLatency.read_run
client_run write_latency = ClientLatency.write_run

abbrev pub server_run : OneSided → List Op
server_run (read_throughput n) = ServerCalls.read_run n
server_run (write_throughput n) = ServerCalls.write_run n
server_run read_latency = ServerLatency.read_run
server_run write_latency = ServerLatency.write_run

client_run-Polite : (run : OneSided) → Polite true (client_run run)
client_run-Polite (read_throughput n) =
    Polite-calls_for (λ size. ClientCalls.read_calls size n) buffer_sizes (send 0 1 ∷ [])
      (λ h size more polite.
        Polite-test h (transfer_calls read_at size n) [] more
          (AreLocal-transfer_calls read_at size n (λ o m. refl)) (polite false))
      (λ k. tt) true
client_run-Polite (write_throughput n) =
    Polite-calls_for (λ size. ClientCalls.write_calls size n ++ randomize n ∷ []) buffer_sizes
      (send 0 1 ∷ [])
      (λ h size more polite.
        rw (append_assoc (transfer_calls write_at size n) (send 0 1 ∷ []) (randomize n ∷ [])) (
          Polite-test h (transfer_calls write_at size n) (randomize n ∷ []) more
            (AreLocal-transfer_calls write_at size n (λ o m. refl)) (polite false)))
      (λ k. tt) true
client_run-Polite read_latency =
    (Polite-append (calls_for ClientLatency.read_calls latency_buffer_sizes) (send 0 1 ∷ [])
      (AreLocal-calls_for ClientLatency.read_calls latency_buffer_sizes
        (λ size. All-replicate IsLocal num_loops (read 0 0 size) refl))
      tt tt).0
client_run-Polite write_latency =
    (Polite-append (calls_for ClientLatency.write_calls latency_buffer_sizes) (send 0 1 ∷ [])
      (AreLocal-calls_for ClientLatency.write_calls latency_buffer_sizes
        (λ size. (refl, All-replicate IsLocal num_loops (write 0 0 size) refl)))
      tt tt).0

-- The server makes its data ready before it tells the client.
Guarded-randomize :
    (n : ℕ) (sizes : List ℕ)
    → Guarded (calls_for (λ _. serve_calls (randomize n ∷ [])) sizes ++ receive 1 ∷ [])
Guarded-randomize n [] = tt
Guarded-randomize n (size ∷ sizes) = ((λ w. w), Guarded-randomize n sizes)

Guarded-clear :
    (n : ℕ) (sizes : List ℕ)
    → Guarded (calls_for (λ _. serve_calls (clear n ∷ [])) sizes ++ receive 1 ∷ [])
Guarded-clear n [] = tt
Guarded-clear n (size ∷ sizes) = ((λ w. w), Guarded-clear n sizes)

server_run-Guarded : (run : OneSided) → Guarded (server_run run)
server_run-Guarded (read_throughput n) = Guarded-randomize n buffer_sizes
server_run-Guarded (write_throughput n) = Guarded-clear n buffer_sizes
server_run-Guarded read_latency = ((λ w. w), tt)
server_run-Guarded write_latency = tt

Dual-run : (run : OneSided) → Dual (comm (client_run run)) (comm (server_run run))
Dual-run (read_throughput n) = Throughput.Dual-read_run n
Dual-run (write_throughput n) = Throughput.Dual-write_run n
Dual-run read_latency = Latency.Dual-read_run
Dual-run write_latency = Latency.Dual-write_run

-- The data of a throughput run leave 2^31 to a `size_t`.
abbrev pub HasRoom : OneSided → Type 0
HasRoom (read_throughput n) = n + 2 ^ 31 < 2 ^ 64
HasRoom (write_throughput n) = n + 2 ^ 31 < 2 ^ 64
HasRoom _ = Unit {0}

module _ (clock : ℕ → ℕ) (F : Floating) where
  abbrev pub client_calls : OneSided → List Op
  client_calls (read_throughput n) = calls_of (Client.run_read_tp_tests clock F n empty)
  client_calls (write_throughput n) = calls_of (Client.run_write_tp_tests clock F n empty)
  client_calls read_latency = calls_of (Client.run_read_latency_tests clock F empty)
  client_calls write_latency = calls_of (Client.run_write_latency_tests clock F empty)

  abbrev pub server_calls : OneSided → List Op
  server_calls (read_throughput n) = calls_of (Server.run_read_tp_tests n empty)
  server_calls (write_throughput n) = calls_of (Server.run_write_tp_tests n empty)
  server_calls read_latency = calls_of (Server.run_read_latency_tests empty)
  server_calls write_latency = calls_of (Server.run_write_latency_tests empty)

  pub client_calls-client_run : (run : OneSided) → HasRoom run → client_calls run ≡ client_run run
  client_calls-client_run (read_throughput n) room =
      calls_of-Emits (ClientCalls.run_read_tp_tests-calls_for clock F n empty room)
  client_calls-client_run (write_throughput n) room =
      calls_of-Emits (ClientCalls.run_write_tp_tests-calls_for clock F n empty room)
  client_calls-client_run read_latency room =
      calls_of-Emits (ClientLatency.run_read_latency_tests-read_run clock F empty)
  client_calls-client_run write_latency room =
      calls_of-Emits (ClientLatency.run_write_latency_tests-write_run clock F empty)

  pub server_calls-server_run : (run : OneSided) → server_calls run ≡ server_run run
  server_calls-server_run (read_throughput n) =
      calls_of-Emits (ServerCalls.run_read_tp_tests-calls_for n empty)
  server_calls-server_run (write_throughput n) =
      calls_of-Emits (ServerCalls.run_write_tp_tests-calls_for n empty)
  server_calls-server_run read_latency =
      calls_of-Emits (ServerLatency.run_read_latency_tests-read_run empty)
  server_calls-server_run write_latency =
      calls_of-Emits (ServerLatency.run_write_latency_tests-write_run empty)

  pub run-Orderly :
      (run : OneSided) {t : System}
      → HasRoom run
      → Reach (start (client_calls run) (server_calls run)) t
      → Orderly t
  run-Orderly run {t} room r =
      let from : Reach (start (client_run run) (server_run run)) t =
        rw (client_calls-client_run run room, server_calls-server_run run) at r in
      Reach-Orderly
        (start-Orderly (client_run run) (server_run run) (Dual-run run) (client_run-Polite run)
          (server_run-Guarded run))
        from

  -- In each one-sided run (with data that leave 2^31 to a `size_t`), and whatever order the steps of
  -- the two ends are taken in: in every state in which the client's next call is a read or a write of
  -- the server's buffer, no step is one of the server. So the server never makes or clears its data
  -- while the client works on them.
  pub server_waits_for_access :
      (run : OneSided) {t u : System} {op : Op} {rest : List Op}
      → HasRoom run
      → Reach (start (client_calls run) (server_calls run)) t
      → t.client ≡ op ∷ rest
      → is_access op ≡ true
      → Step t u
      → u.server ≡ t.server
  server_waits_for_access run {t} {u} room r next_call access st =
      let from : Reach (start (client_run run) (server_run run)) t =
        rw (client_calls-client_run run room, server_calls-server_run run) at r in
      server_waits (client_run run) (server_run run) (Dual-run run) (client_run-Polite run)
        (server_run-Guarded run) from next_call access st
