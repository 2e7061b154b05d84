-- ===== src/Tcp/Transfer/Latency.antt =====
-- The latency tests of client and server together.
use rdma_project.Common.{
  ◌+◌, ◌*◌, ◌≤◌, ◌≡◌, refl, ap, ◌∙◌, List, [], ◌++◌, arith, length, replicate, map,
}
use rdma_project.Settings.{latency_buffer_sizes-IsChunkSize, latency_buffer_sizes}
use rdma_project.Host.{Kernel, Process, done}
use rdma_project.Host.Effect.{Effect, after}
use rdma_project.Host.Reliable.{Sends, Receives}
use rdma_project.Measure.{Floating, TestResult}
use rdma_project.Utils.RandomData.{Random}
use rdma_project.Tcp.Client
use rdma_project.Tcp.Client.{num_buffers}
use rdma_project.Tcp.Client.Latency.{volume, run_latency_tests-Effect}
use rdma_project.Tcp.Server
use rdma_project.Tcp.Server.Latency.{LastMessages, latency_tests-Effect}
use rdma_project.Tcp.Transfer.{delivered}

module _ (Kc Ks : Kernel) (F : Floating) (c v : Process) where
  -- The whole run of TCP latency tests, on working sockets, with a new connection, a source of random
  -- bytes that works and as many replies as chunk sizes: the client returns with one result for each
  -- of `latency_buffer_sizes`, in order, having sent as many bytes as `num_loops` messages of each size have and left the
  -- file of each of its buffers open; the server, on what the client has sent, returns with the last
  -- message of each size, having read all of it and sent one `y` for each size.
  pub run_latency_tests_transfer :
      Sends Kc c.calls
      → Receives Kc
      → Random Kc
      → Sends Ks v.calls
      → Receives Ks
      → c.outbound ≡ []
      → length latency_buffer_sizes ≤ length c.inbound
      → (results : List (TestResult F.Double)) × (c' : Process) × (Client.run_latency_tests Kc F c
          ≡ done results c')
        × (map (λ r. r.buffer_size) results ≡ latency_buffer_sizes)
        × (c'.fds ≡ c.fds + length latency_buffer_sizes * num_buffers)
        × (length c'.outbound ≡ volume latency_buffer_sizes)
        × Effect
            (delivered c' v)
            (replicate (length latency_buffer_sizes) b'y')
            (volume latency_buffer_sizes)
            0
            (LastMessages latency_buffer_sizes c'.outbound)
            (Server.run_latency_tests Ks (delivered c' v))
  unfolding Server.run_latency_tests
  run_latency_tests_transfer okc rc rand oks rs new replies =
      let (out, many, e) = run_latency_tests-Effect Kc F c okc rc rand replies in
      let c' =
        after c out (length latency_buffer_sizes) (length latency_buffer_sizes * num_buffers)
          e.last in
      let sent : c'.outbound ≡ out = ap (λ z. z ++ out) new in
      let whole : length c'.outbound ≡ volume latency_buffer_sizes = ap length sent ∙ many in
      (
        e.value,
        c',
        e.result,
        e.holds,
        refl,
        whole,
        latency_tests-Effect Ks rs latency_buffer_sizes (delivered c' v) oks
            latency_buffer_sizes-IsChunkSize (omega (arith, whole)),
      )
