-- ===== src/Tcp/Transfer.antt =====
-- The throughput tests of client and server together: what one end sends, the other receives.
pub mod Latency
use rdma_project.Common.{
  ℕ, ◌+◌, ◌*◌, ◌<◌, ◌≤◌, ◌^◌, ◌≡◌, refl, ap, ◌∙◌, List, [], ◌∷◌, ◌++◌, arith, length, replicate,
  flatten, map, take_all,
}
use rdma_project.Settings.{IsChunkSize, buffer_sizes-IsChunkSize, buffer_sizes}
use rdma_project.Host.{Kernel, Process, done}
use rdma_project.Host.Effect
use rdma_project.Host.Effect.{Effect, after}
use rdma_project.Host.Reliable.{Sends, Receives}
use rdma_project.Measure.{Floating, TestResult}
use rdma_project.Utils.RandomData.{Random}
use rdma_project.Tcp.Client
use rdma_project.Tcp.Client.Sent
use rdma_project.Tcp.Server
use rdma_project.Tcp.Server.Received

-- `v` once all that `c` has sent has arrived.
abbrev pub delivered : Process → Process → Process
delivered c v = record v { inbound = c.outbound }

module _ (Kc Ks : Kernel) (F : Floating) (c v : Process) where
  -- The TCP throughput test for a chunk size from 1 to 2^31 - 1 and data that are not empty, whose
  -- size leaves room for a chunk in a `size_t`: on working sockets, when the client has sent nothing
  -- before and a reply has arrived for it to read, the client's test returns, and the server's test,
  -- on what the client has sent, returns with a copy of the data that equals the client's, having read
  -- all of it and answered with one `y`.
  pub throughput_test_transfer :
      (size : ℕ) (bytes : List ℕ)
      → Sends Kc c.calls
      → Receives Kc
      → Sends Ks v.calls
      → Receives Ks
      → IsChunkSize size
      → 0 < length bytes
      → length bytes + size < 2 ^ 64
      → c.outbound ≡ []
      → 0 < length c.inbound
      → (t : F.Double) × (c' : Process) × (Client.throughput_test Kc F size bytes c ≡ done t c')
        × Effect
            (delivered c' v)
            (b'y' ∷ [])
            (length bytes)
            0
            (λ d. d ≡ bytes)
            (Server.throughput_test Ks size (length bytes) (delivered c' v))
  throughput_test_transfer size bytes okc rc oks rs valid some_bytes room new reply =
      let e =
        Sent.throughput_test-Effect Kc F size bytes c okc rc valid.0 valid.1 some_bytes room
          reply in
      let c' = after c bytes 1 0 e.last in
      let out : c'.outbound ≡ bytes = ap (λ z. z ++ bytes) new in
      (
        e.value,
        c',
        e.result,
        Effect.weaken (λ d p. p ∙ take_all (length bytes) c'.outbound (rw out (omega arith)) ∙ out)
            (Received.throughput_test-Effect Ks rs size (length bytes) (delivered c' v) oks valid.0
              valid.1 room (rw out (omega arith))),
      )

  -- The whole run over every chunk size, of data that are not empty and whose size leaves 2^31 to a
  -- `size_t`, on working sockets, when the client has sent nothing before, as many replies as chunk
  -- sizes have arrived for it to read and its source of random bytes works: the client returns with one
  -- result for each of `buffer_sizes`, in order, having left one file open for each and one more; the
  -- server, on what the client has sent, returns with copies that make up exactly that, having read all
  -- of it and sent one `y` for each chunk size.
  pub run_throughput_tests_transfer :
      (data_size : ℕ)
      → Sends Kc c.calls
      → Receives Kc
      → Random Kc
      → Sends Ks v.calls
      → Receives Ks
      → 0 < data_size
      → data_size + 2 ^ 31 < 2 ^ 64
      → c.outbound ≡ []
      → length buffer_sizes ≤ length c.inbound
      → (results : List (TestResult F.Double)) × (c' : Process) × (Client.run_throughput_tests Kc F
            data_size c
          ≡ done results c')
        × (map (λ r. r.buffer_size) results ≡ buffer_sizes)
        × (c'.fds ≡ c.fds + (1 + length buffer_sizes))
        × Effect
            (delivered c' v)
            (replicate (length buffer_sizes) b'y')
            (length buffer_sizes * data_size)
            0
            (λ ds. flatten ds ≡ c'.outbound)
            (Server.run_throughput_tests Ks data_size (delivered c' v))
  unfolding Server.run_throughput_tests
  run_throughput_tests_transfer n okc rc rand oks rs pos room new replies =
      let (out, many, e) = Sent.run_throughput_tests-Effect Kc F n c okc rc rand pos room replies in
      let c' = after c out (length buffer_sizes) (1 + length buffer_sizes) e.last in
      let sent : c'.outbound ≡ out = ap (λ z. z ++ out) new in
      (
        e.value,
        c',
        e.result,
        e.holds,
        refl,
        Effect.weaken
            (λ ds p.
              p ∙ take_all (length buffer_sizes * n) c'.outbound (rw sent (omega (arith, many))))
            (Received.throughput_tests-Effect Ks rs buffer_sizes n (delivered c' v) oks
              buffer_sizes-IsChunkSize room (rw sent (omega (arith, many)))),
      )
