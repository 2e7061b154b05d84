-- ===== src/Tcp/Server/Waits.antt =====
-- The tests of the server while data are missing: each test that has its data is answered, and the one
-- behind them waits.
use rdma_project.Common.{
  ℕ, zero, suc, ◌+◌, ◌-◌, ◌*◌, ◌%◌, ◌<◌, ◌^◌, ◌≡◌, List, [], ◌∷◌, take, arith, length, length-drop,
  nil_of_length, replicate, ltb, lt→ltb, le→ltb_false, true, dec_lt, All,
}
use rdma_project.Settings.{IsChunkSize, num_loops, num_loops_positive}
use rdma_project.Host.{Kernel, Process}
use rdma_project.Host.Reliable.{Sends, Sends-later, Receives, Patient}
use rdma_project.Host.Waits
use rdma_project.Host.Waits.{Waits}
use rdma_project.Tcp.Socket.Effects.{receive_message-Waits}
use rdma_project.Tcp.Client.Latency.{volume}
use rdma_project.Tcp.Server.{
  receive_chunks, throughput_test, throughput_tests, receive_loops, latency_test, latency_tests,
}
use rdma_project.Tcp.Server.Received as Received
use rdma_project.Tcp.Server.Latency as Latency

module _ (K : Kernel) (patient : Patient K) where
  throughput_test-Waits :
      (size data_size : ℕ) (s : Process)
      → 0 < size
      → 0 < data_size
      → s.inbound ≡ []
      → Waits s [] (throughput_test K size data_size s)
  unfolding throughput_test receive_chunks
  throughput_test-Waits size n s pos some_data nothing = elim (dec_lt 0 (n - n % size)) [
    | yes more ↦
        let first : ltb 0 (n - n % size) ≡ true = lt→ltb 0 (n - n % size) more in
        rw first (
          Waits.in_first _ (
            Waits.in_first _
              (receive_message-Waits K size (replicate size 0) s patient pos nothing)))
    | no none_left ↦ rw (le→ltb_false 0 (n - n % size) (omega (arith, none_left))) (
        Waits.in_first _ (
          receive_message-Waits K (n % size) (replicate size 0) s patient (grind (arith, none_left))
            nothing))
  ]

  receive_loops-Waits :
      (n size : ℕ) (little bytes : List ℕ) (s : Process)
      → 0 < n
      → 0 < size
      → s.inbound ≡ []
      → Waits s [] (receive_loops K n size little bytes s)
  unfolding receive_loops
  receive_loops-Waits zero size little bytes s some_rounds pos nothing =
      absurd (omega (arith, some_rounds))
  receive_loops-Waits (suc n) size little bytes s some_rounds pos nothing =
      Waits.in_first _ (receive_message-Waits K size little s patient pos nothing)

  latency_test-Waits :
      (size : ℕ) (s : Process) → 0 < size → s.inbound ≡ [] → Waits s [] (latency_test K size s)
  unfolding latency_test
  latency_test-Waits size s pos nothing = Waits.in_first _ (
      receive_loops-Waits num_loops size (replicate size 0) (replicate size 0) s num_loops_positive
        pos nothing)

module _ (K : Kernel) (ok : Receives K) (patient : Patient K) where
  -- With the data of `k` tests, fewer than there are, the run answers those and waits.
  pub throughput_tests-Waits :
      (k : ℕ) (sizes : List ℕ) (data_size : ℕ) (s : Process)
      → Sends K s.calls
      → All IsChunkSize sizes
      → 0 < data_size
      → data_size + 2 ^ 31 < 2 ^ 64
      → length s.inbound ≡ k * data_size
      → k < length sizes
      → Waits s (replicate k b'y') (throughput_tests K sizes data_size s)
  unfolding throughput_tests
  throughput_tests-Waits k [] n s oks valid pos room e lt = absurd (omega (arith, lt))
  throughput_tests-Waits zero (size ∷ sizes) n s oks valid pos room e lt = Waits.in_first _ (
      throughput_test-Waits K patient size n s valid.0.0 pos
        (nil_of_length s.inbound (omega (arith, e))))
  throughput_tests-Waits (suc k) (size ∷ sizes) n s oks valid pos room e lt =
      Waits.bind s (b'y' ∷ []) (replicate k b'y') n 0 _
        (Received.throughput_test-Effect K ok size n s oks valid.0.0 valid.0.1
          (omega (arith, room, valid.0.1)) (omega (arith, e)))
        λ d c le _. Waits.in_first _ (
          throughput_tests-Waits k sizes n _ (Sends-later le oks) valid.1 pos room
            (omega (arith, e, length-drop n s.inbound)) (omega (arith, lt)))

  pub latency_tests-Waits :
      (k : ℕ) (sizes : List ℕ) (s : Process)
      → Sends K s.calls
      → All IsChunkSize sizes
      → length s.inbound ≡ volume (take k sizes)
      → k < length sizes
      → Waits s (replicate k b'y') (latency_tests K sizes s)
  unfolding latency_tests
  latency_tests-Waits k [] s oks valid e lt = absurd (omega (arith, lt))
  latency_tests-Waits zero (size ∷ sizes) s oks valid e lt =
      Waits.in_first _ (latency_test-Waits K patient size s valid.0.0 (nil_of_length s.inbound e))
  latency_tests-Waits (suc k) (size ∷ sizes) s oks valid e lt =
      Waits.bind s (b'y' ∷ []) (replicate k b'y') (num_loops * size) 0 _
        (Latency.latency_test-Effect K ok size s oks valid.0 (omega (arith, e)))
        λ d c le _. Waits.in_first _ (
          latency_tests-Waits k sizes _ (Sends-later le oks) valid.1
            (omega (arith, e, length-drop (num_loops * size) s.inbound)) (omega (arith, lt)))
