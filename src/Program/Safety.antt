-- ===== src/Program/Safety.antt =====
-- The programs of a client and of its server do not wait for one another forever.
use Prim.Native.String.{String}
use rdma_project.Common.{ℕ, ◌+◌, ◌<◌, ◌^◌, ◌≡◌, sym, subst, List, [], ◌∷◌, ◌++◌, ◌⊎◌}
use rdma_project.Cli.{
  Conversions, Task, throughput_tests, latency_tests, rdma_client, rdma_server, connects, serves,
  main,
}
use rdma_project.Cli.Agreement.{main-append}
use rdma_project.Measure.{Floating}
use rdma_project.Rdma.Verbs.{Op, Log}
use rdma_project.Rdma.Verbs.Emits
use rdma_project.Rdma.Verbs.Emits.{Emits, Any}
use rdma_project.Rdma.Client.Calls as ClientCalls
use rdma_project.Rdma.Client.Latency as ClientLatency
use rdma_project.Rdma.Server.Calls as ServerCalls
use rdma_project.Rdma.Server.Latency as ServerLatency
use rdma_project.Rdma.Agreement.{empty, calls_of, calls_of-Emits, Uneven, Dual-throughput_runs}
use rdma_project.Rdma.Latency.{Dual-latency_runs}
use rdma_project.Rdma.Quiet.{Dual-comm_append}
use rdma_project.Rdma.System.{System, Step, Reach, IsFinished, start}
use rdma_project.Rdma.System.Dual.{comm, Dual}
use rdma_project.Rdma.System.Safety.Progress.{no_deadlock, finishes}
use rdma_project.Program.{run_client, run_server}

-- The tests can be run: the data of each throughput run are not empty, leave 2^31 to a `size_t`, and
-- do not end with a full chunk.
abbrev pub Fits : List Task → Type 0
Fits [] = Unit {0}
Fits (throughput_tests n ∷ ts) = ((0 < n) × (n + 2 ^ 31 < 2 ^ 64) × Uneven n) × Fits ts
Fits (latency_tests ∷ ts) = Fits ts

-- The calls of one task, and of all.
abbrev client_run : Task → List Op
client_run (throughput_tests n) =
    ClientCalls.read_run n ++ (ClientCalls.write_run n ++ ClientCalls.two_sided_run n)
client_run latency_tests =
    ClientLatency.read_run ++ (ClientLatency.write_run ++ ClientLatency.two_sided_run)

abbrev server_run : Task → List Op
server_run (throughput_tests n) =
    ServerCalls.read_run n ++ (ServerCalls.write_run n ++ ServerCalls.two_sided_run n)
server_run latency_tests =
    ServerLatency.read_run ++ (ServerLatency.write_run ++ ServerLatency.two_sided_run)

abbrev runs_of : (Task → List Op) → List Task → List Op
runs_of run [] = []
runs_of run (t ∷ ts) = run t ++ runs_of run ts

run_server-runs_of :
    (ts : List Task) (s : Log) → Fits ts → Emits s (runs_of server_run ts) Any (run_server ts s)
unfolding run_server
run_server-runs_of [] s fits = Emits.returns s tt tt
run_server-runs_of (throughput_tests n ∷ ts) s fits =
    Emits.bind s _ (runs_of server_run ts) _
      (ServerCalls.run_throughput_tests-server_runs n s fits.0.1)
      λ _ t _. run_server-runs_of ts t fits.1
run_server-runs_of (latency_tests ∷ ts) s fits =
    Emits.bind s _ (runs_of server_run ts) _ (ServerLatency.run_latency_tests-server_runs s)
      λ _ t _. run_server-runs_of ts t fits

Dual-runs :
    (ts : List Task) → Fits ts → Dual (comm (runs_of client_run ts)) (comm (runs_of server_run ts))
Dual-runs [] fits = tt
Dual-runs (throughput_tests n ∷ ts) fits =
    Dual-comm_append (client_run (throughput_tests n)) (server_run (throughput_tests n))
      (runs_of client_run ts) (runs_of server_run ts) (Dual-throughput_runs n fits.0.2)
      (Dual-runs ts fits.1)
Dual-runs (latency_tests ∷ ts) fits =
    Dual-comm_append (client_run latency_tests) (server_run latency_tests) (runs_of client_run ts)
      (runs_of server_run ts) Dual-latency_runs (Dual-runs ts fits)

module _ (clock : ℕ → ℕ) (F : Floating) where
  run_client-runs_of :
      (ts : List Task) (s : Log)
      → Fits ts
      → Emits s (runs_of client_run ts) Any (run_client clock F ts s)
  unfolding run_client
  run_client-runs_of [] s fits = Emits.returns s tt tt
  run_client-runs_of (throughput_tests n ∷ ts) s fits =
      Emits.bind s _ (runs_of client_run ts) _
        (ClientCalls.run_throughput_tests-runs clock F n s fits.0.0 fits.0.1)
        λ _ t _. run_client-runs_of ts t fits.1
  run_client-runs_of (latency_tests ∷ ts) s fits =
      Emits.bind s _ (runs_of client_run ts) _ (ClientLatency.run_latency_tests-runs clock F s)
        λ _ t _. run_client-runs_of ts t fits

  abbrev pub client_calls : List Task → List Op
  client_calls ts = calls_of (run_client clock F ts empty)

  abbrev pub server_calls : List Task → List Op
  server_calls ts = calls_of (run_server ts empty)

  Dual-calls : (ts : List Task) → Fits ts → Dual (comm (client_calls ts)) (comm (server_calls ts))
  Dual-calls ts fits =
      rw
        (
          calls_of-Emits (run_client-runs_of ts empty fits),
          calls_of-Emits (run_server-runs_of ts empty fits),
        )
        (Dual-runs ts fits)

  Dual-programs :
      (C : Conversions) (argv : List String) {ip p q : String} {ts us : List Task}
      → main C argv ≡ connects (rdma_client ip p) ts
      → main C (argv ++ "-s" ∷ []) ≡ serves (rdma_server q) us
      → Fits ts
      → Dual (comm (client_calls ts)) (comm (server_calls us))
  Dual-programs C argv {ip} {p} {q} {ts} {us} client server fits =
      let (s, runs, matches) = main-append C argv client in
      let same : us ≡ ts = cc in
      subst (λ z. Dual (comm (client_calls ts)) (comm (server_calls z))) (sym same)
        (Dual-calls ts fits)

  -- A client program over RDMA, and the program with the same arguments and `-s` behind them. For
  -- tests that can be run (the data of a throughput run not empty, no multiple of a chunk size, and
  -- with room for 2^31 more in a `size_t`), and whatever order the steps of the two are taken in: in
  -- every state that they get to, a step is possible unless both have made all their calls and no
  -- message is left over.
  pub programs_no_deadlock :
      (C : Conversions) (argv : List String) {ip p q : String} {ts us : List Task} {t : System}
      → main C argv ≡ connects (rdma_client ip p) ts
      → main C (argv ++ "-s" ∷ []) ≡ serves (rdma_server q) us
      → Fits ts
      → Reach (start (client_calls ts) (server_calls us)) t
      → IsFinished t ⊎ ((v : System) × Step t v)
  programs_no_deadlock C argv client server fits r =
      no_deadlock _ _ (Dual-programs C argv client server fits) r

  -- Under the same conditions (tests that can be run, a client over RDMA, and the server that `-s`
  -- makes of its arguments), from whatever state the two have got to they can still finish: both have
  -- made all their calls and no message is left over.
  pub programs_finish :
      (C : Conversions) (argv : List String) {ip p q : String} {ts us : List Task} {t : System}
      → main C argv ≡ connects (rdma_client ip p) ts
      → main C (argv ++ "-s" ∷ []) ≡ serves (rdma_server q) us
      → Fits ts
      → Reach (start (client_calls ts) (server_calls us)) t
      → (u : System) × Reach (start (client_calls ts) (server_calls us)) u
        × Reach t u
        × IsFinished u
  programs_finish C argv client server fits r =
      finishes _ _ (Dual-programs C argv client server fits) r
