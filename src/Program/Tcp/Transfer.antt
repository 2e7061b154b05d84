-- ===== src/Program/Tcp/Transfer.antt =====
-- A client and its server over TCP, from their arguments on.
use Prim.Native.String.{String}
use rdma_project.Common.{
  ℕ, ◌+◌, ◌*◌, ◌<◌, ◌≤◌, ◌^◌, ◌≡◌, refl, sym, ap, ◌∙◌, subst, List, [], ◌∷◌, ◌++◌, arith, length,
  replicate, length-append, length-drop, replicate-append,
}
use rdma_project.Settings.{
  buffer_sizes-IsChunkSize, latency_buffer_sizes-IsChunkSize, buffer_sizes, latency_buffer_sizes,
}
use rdma_project.Cli.{
  Conversions, Task, throughput_tests, latency_tests, tcp_client, tcp_server, connects, serves,
  main,
}
use rdma_project.Cli.Agreement.{main-append}
use rdma_project.Host.{Kernel, Process, done}
use rdma_project.Host.Effect
use rdma_project.Host.Effect.{Effect, after}
use rdma_project.Host.Reliable.{Sends, Sends-later, Receives}
use rdma_project.Measure.{Floating}
use rdma_project.Utils.RandomData.{Random}
use rdma_project.Tcp.Client.{num_buffers}
use rdma_project.Tcp.Client.Sent.{Nothing, run_throughput_tests-Effect}
use rdma_project.Tcp.Client.Latency.{volume, run_latency_tests-Effect}
use rdma_project.Tcp.Server
use rdma_project.Tcp.Server.Received as Received
use rdma_project.Tcp.Server.Latency as ServerLatency
use rdma_project.Tcp.Transfer.{delivered}
use rdma_project.Program.Tcp.{run_tcp_client, run_tcp_server}

-- The data of each throughput run are not empty, and leave 2^31 to a `size_t`.
abbrev pub HasRoom : List Task → Type 0
HasRoom [] = Unit {0}
HasRoom (throughput_tests n ∷ ts) = ((0 < n) × (n + 2 ^ 31 < 2 ^ 64)) × HasRoom ts
HasRoom (latency_tests ∷ ts) = HasRoom ts

-- The bytes that the client sends for some tasks, the replies that it gets, and the files it leaves
-- open.
abbrev pub bytes_of : List Task → ℕ
bytes_of [] = 0
bytes_of (throughput_tests n ∷ ts) = length buffer_sizes * n + bytes_of ts
bytes_of (latency_tests ∷ ts) = volume latency_buffer_sizes + bytes_of ts

abbrev pub replies_of : List Task → ℕ
replies_of [] = 0
replies_of (throughput_tests n ∷ ts) = length buffer_sizes + replies_of ts
replies_of (latency_tests ∷ ts) = length latency_buffer_sizes + replies_of ts

abbrev pub files_of : List Task → ℕ
files_of [] = 0
files_of (throughput_tests n ∷ ts) = 1 + length buffer_sizes + files_of ts
files_of (latency_tests ∷ ts) = length latency_buffer_sizes * num_buffers + files_of ts

module _ (K : Kernel) (F : Floating) (okr : Receives K) (rand : Random K) where
  pub run_tcp_client-Effect :
      (ts : List Task) (s : Process)
      → Sends K s.calls
      → HasRoom ts
      → replies_of ts ≤ length s.inbound
      → (out : List ℕ) × (length out ≡ bytes_of ts)
        × Effect s out (replies_of ts) (files_of ts) Nothing (run_tcp_client K F ts s)
  unfolding run_tcp_client
  run_tcp_client-Effect [] s ok room there = ([], refl, Effect.returns s tt tt)
  run_tcp_client-Effect (throughput_tests n ∷ ts) s ok room there =
      let (out, many, e) =
        run_throughput_tests-Effect K F n s ok okr rand room.0.0 room.0.1 (omega (arith, there)) in
      let t = after s out (length buffer_sizes) (1 + length buffer_sizes) e.last in
      let (more, counted, rest) =
        run_tcp_client-Effect ts t (Sends-later e.later ok) room.1
          (omega (arith, there, length-drop (length buffer_sizes) s.inbound)) in
      (
        out ++ more,
        omega (arith, many, counted, length-append out more),
        Effect.bind_at s out more _ _ _ _ (λ unused. run_tcp_client K F ts) e rest,
      )
  run_tcp_client-Effect (latency_tests ∷ ts) s ok room there =
      let (out, many, e) = run_latency_tests-Effect K F s ok okr rand (omega (arith, there)) in
      let t =
        after s out (length latency_buffer_sizes) (length latency_buffer_sizes * num_buffers)
          e.last in
      let (more, counted, rest) =
        run_tcp_client-Effect ts t (Sends-later e.later ok) room
          (omega (arith, there, length-drop (length latency_buffer_sizes) s.inbound)) in
      (
        out ++ more,
        omega (arith, many, counted, length-append out more),
        Effect.bind_at s out more _ _ _ _ (λ unused. run_tcp_client K F ts) e rest,
      )

module _ (K : Kernel) (okr : Receives K) where
  pub run_tcp_server-Effect :
      (ts : List Task) (s : Process)
      → Sends K s.calls
      → HasRoom ts
      → bytes_of ts ≤ length s.inbound
      → Effect s (replicate (replies_of ts) b'y') (bytes_of ts) 0 Nothing (run_tcp_server K ts s)
  unfolding run_tcp_server Server.run_throughput_tests Server.run_latency_tests
  run_tcp_server-Effect [] s ok room there = Effect.returns s tt tt
  run_tcp_server-Effect (throughput_tests n ∷ ts) s ok room there =
      Effect.reshape (replicate-append (length buffer_sizes) (replies_of ts) b'y') refl refl (
        Effect.bind s _ _ (length buffer_sizes * n) _ 0 0 _
          (Received.throughput_tests-Effect K okr buffer_sizes n s ok buffer_sizes-IsChunkSize
            room.0.1 (omega (arith, there)))
          λ unused c le _.
            run_tcp_server-Effect ts _ (Sends-later le ok) room.1
              (omega (arith, there, length-drop (length buffer_sizes * n) s.inbound)))
  run_tcp_server-Effect (latency_tests ∷ ts) s ok room there =
      Effect.reshape (replicate-append (length latency_buffer_sizes) (replies_of ts) b'y') refl refl
        (Effect.bind s _ _ (volume latency_buffer_sizes) _ 0 0 _
          (ServerLatency.latency_tests-Effect K okr latency_buffer_sizes s ok
            latency_buffer_sizes-IsChunkSize (omega (arith, there)))
          λ unused c le _.
            run_tcp_server-Effect ts _ (Sends-later le ok) room
              (omega (arith, there, length-drop (volume latency_buffer_sizes) s.inbound)))

module _ (Kc Ks : Kernel) (F : Floating) (c v : Process) where
  -- A client program over TCP, and the program with the same arguments and `-s` behind them, with
  -- data that are not empty and leave 2^31 to a `size_t`. On working sockets, with a new connection, a
  -- source of random bytes that works and a reply for each test: the client's program gets through its
  -- tests, having sent the bytes of all of them and left the files of all of them open; the server's,
  -- on what the client has sent, gets through its own, having read all of it and answered each test
  -- with one `y`.
  pub tcp_programs_transfer :
      (C : Conversions) (argv : List String) {ip p q : String} {ts us : List Task}
      → main C argv ≡ connects (tcp_client ip p) ts
      → main C (argv ++ "-s" ∷ []) ≡ serves (tcp_server q) us
      → HasRoom ts
      → Sends Kc c.calls
      → Receives Kc
      → Random Kc
      → Sends Ks v.calls
      → Receives Ks
      → c.outbound ≡ []
      → replies_of ts ≤ length c.inbound
      → (c' : Process) × (run_tcp_client Kc F ts c ≡ done tt c')
        × (length c'.outbound ≡ bytes_of ts)
        × (c'.fds ≡ c.fds + files_of ts)
        × Effect
            (delivered c' v)
            (replicate (replies_of ts) b'y')
            (bytes_of ts)
            0
            Nothing
            (run_tcp_server Ks us (delivered c' v))
  tcp_programs_transfer C argv {ip} {p} {q} {ts} {us} client server room okc rc rand oks rs new
        replies =
      let (s, runs, matches) = main-append C argv client in
      let same : us ≡ ts = cc in
      let (out, many, e) = run_tcp_client-Effect Kc F rc rand ts c okc room replies in
      let c' = after c out (replies_of ts) (files_of ts) e.last in
      let sent : c'.outbound ≡ out = ap (λ z. z ++ out) new in
      let whole : length c'.outbound ≡ bytes_of ts = ap length sent ∙ many in
      (
        c',
        e.result,
        whole,
        refl,
        subst
            (λ z.
              Effect (delivered c' v) (replicate (replies_of ts) b'y') (bytes_of ts) 0 Nothing
                (run_tcp_server Ks z (delivered c' v)))
            (sym same)
            (run_tcp_server-Effect Ks rs ts (delivered c' v) oks room (omega (arith, whole))),
      )
