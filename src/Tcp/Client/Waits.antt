-- ===== src/Tcp/Client/Waits.antt =====
-- The tests of the client while replies are missing: each sends all its bytes before it waits.
use rdma_project.Common.{
  last_index_lem, ℕ, zero, suc, ◌+◌, ◌-◌, ◌*◌, ◌/◌, ◌%◌, ◌<◌, ◌^◌, ◌≡◌, ◌∙◌, List, [], ◌∷◌, ◌++◌,
  take, drop, arith, length, length-append, length-drop, nil_of_length, get_or, append-nil, All,
}
use rdma_project.Settings.{
  IsChunkSize, buffer_sizes-IsChunkSize, latency_buffer_sizes-IsChunkSize, buffer_sizes,
  latency_buffer_sizes, num_loops,
}
use rdma_project.Host.{Kernel, Process}
use rdma_project.Host.Effect.{after}
use rdma_project.Host.Reliable.{Sends, Sends-later, Receives, Patient}
use rdma_project.Host.Waits
use rdma_project.Host.Waits.{Waits}
use rdma_project.Measure.{Floating}
use rdma_project.Utils.RandomData.{Random, dev_random_data-Effect, generate_random_data-Effect}
use rdma_project.Tcp.Socket.Effects.{sys_now-Effect, send_tcp_message-Effect, receive_message-Waits}
use rdma_project.Tcp.Client.{
  num_buffers, throughput_test, throughput_tests, run_throughput_tests, latency_test, latency_tests,
  run_latency_tests,
}
use rdma_project.Tcp.Client.Sent.{chunks_rejoin, send_chunks-Effect, throughput_test-Effect}
use rdma_project.Tcp.Client.Latency.{
  volume, loop_bytes, length-loop_bytes, make_buffers-Effect, send_loops-Effect,
  latency_test-Effect,
}

module _ (K : Kernel) (F : Floating) (patient : Patient K) where
  throughput_test-Waits :
      (size : ℕ) (bytes : List ℕ) (s : Process)
      → Sends K s.calls
      → IsChunkSize size
      → length bytes + size < 2 ^ 64
      → s.inbound ≡ []
      → Waits s bytes (throughput_test K F size bytes s)
  unfolding throughput_test
  throughput_test-Waits size bytes s ok (pos, small) room nothing =
      let n = length bytes in
      let (whole, rounds, rest) = last_index_lem n size pos in
      let last = n - n % size in
      Waits.reshape
        (chunks_rejoin bytes (n / size * size) last (n % size) (omega arith) (omega arith))
        (Waits.bind s [] _ 0 0 _ (sys_now-Effect K s) λ _ c le _.
          Waits.bind _ (take (n / size * size) bytes) _ 0 0 _
            (send_chunks-Effect K (suc last) (n / size) bytes size last 0 _ (Sends-later le ok) pos
              small (omega arith) whole rounds)
            λ _ c' le' _.
              Waits.bind _ (take (n % size) (drop last bytes)) _ 0 0 _
                (send_tcp_message-Effect K (drop last bytes) (n % size) _
                  (Sends-later (omega arith) ok) (omega arith))
                λ _ c'' le'' _.
                  Waits.in_first _
                    (receive_message-Waits K 1 bytes _ patient (omega arith) nothing))

  -- With fewer replies than tests, the run waits in the test behind them.
  throughput_tests-Waits :
      (k : ℕ) (sizes bytes : List ℕ) (data_size : ℕ) (s : Process)
      → Sends K s.calls
      → Receives K
      → Random K
      → All IsChunkSize sizes
      → length bytes ≡ data_size
      → 0 < data_size
      → data_size + 2 ^ 31 < 2 ^ 64
      → length s.inbound ≡ k
      → k < length sizes
      → (out : List ℕ) × (length out ≡ suc k * data_size)
        × Waits s out (throughput_tests K F sizes bytes data_size s)
  unfolding throughput_tests
  throughput_tests-Waits k [] bytes n s ok okr rand valid w pos room e lt =
      absurd (omega (arith, lt))
  throughput_tests-Waits zero (size ∷ sizes) bytes n s ok okr rand valid w pos room e lt = (
    bytes,
    omega (arith, w),
    Waits.in_first _ (
        throughput_test-Waits size bytes s ok valid.0 (omega (arith, w, valid.0.1, room))
          (nil_of_length s.inbound e)),
  )
  throughput_tests-Waits (suc k) (size ∷ sizes) bytes n s ok okr rand valid w pos room e lt =
      let test =
        throughput_test-Effect K F size bytes s ok okr valid.0.0 valid.0.1 (omega arith)
          (omega arith) (omega arith) in
      let s1 = after s bytes 1 0 test.last in
      let fill = dev_random_data-Effect K rand bytes n s1 (omega arith) in
      let s2 = after s1 [] 0 1 fill.last in
      let (out, many, rest) =
        throughput_tests-Waits k sizes fill.value n s2
          (Sends-later (omega (arith, test.later, fill.later)) ok) okr rand valid.1 (fill.holds ∙ w)
          pos room (omega (arith, e, length-drop 1 s.inbound)) (omega (arith, lt)) in
      (
        bytes ++ out,
        omega (arith, many, w, length-append bytes out),
        Waits.bind_at s bytes out 1 0 _ test
            (Waits.bind_at s1 [] out 0 1 _ fill (Waits.in_first _ rest)),
      )

  pub run_throughput_tests-Waits :
      (k data_size : ℕ) (s : Process)
      → Sends K s.calls
      → Receives K
      → Random K
      → 0 < data_size
      → data_size + 2 ^ 31 < 2 ^ 64
      → length s.inbound ≡ k
      → k < length buffer_sizes
      → (out : List ℕ) × (length out ≡ suc k * data_size)
        × Waits s out (run_throughput_tests K F data_size s)
  unfolding run_throughput_tests
  run_throughput_tests-Waits k n s ok okr rand pos room e lt =
      let fill = generate_random_data-Effect K rand n s in
      let (out, many, rest) =
        throughput_tests-Waits k buffer_sizes fill.value n (after s [] 0 1 fill.last)
          (Sends-later fill.later ok) okr rand buffer_sizes-IsChunkSize fill.holds pos room e lt in
      (out, many, Waits.bind_at s [] out 0 1 _ fill rest)

  latency_test-Waits :
      (size : ℕ) (s : Process)
      → Sends K s.calls
      → Random K
      → IsChunkSize size
      → s.inbound ≡ []
      → (out : List ℕ) × (length out ≡ num_loops * size) × Waits s out (latency_test K F size s)
  unfolding latency_test
  latency_test-Waits size s ok rand valid nothing =
      let made = make_buffers-Effect K num_buffers size s rand in
      let out = loop_bytes num_loops 0 made.value size in
      (
        out,
        length-loop_bytes num_loops 0 made.value size made.holds,
        Waits.reshape (append-nil out) (
            Waits.bind_at s [] _ 0 num_buffers _ made (
              Waits.bind _ [] _ 0 0 _ (sys_now-Effect K _) λ _ c le _.
                Waits.bind _ out _ 0 0 _
                  (send_loops-Effect K num_loops 0 made.value size _
                    (Sends-later (omega (arith, made.later)) ok) valid.1)
                  λ _ c' le' _. Waits.in_first _ (
                    receive_message-Waits K 1 (get_or made.value 0 []) _ patient (omega arith)
                      nothing))),
      )

  latency_tests-Waits :
      (k : ℕ) (sizes : List ℕ) (s : Process)
      → Sends K s.calls
      → Receives K
      → Random K
      → All IsChunkSize sizes
      → length s.inbound ≡ k
      → k < length sizes
      → (out : List ℕ) × (length out ≡ volume (take (suc k) sizes))
        × Waits s out (latency_tests K F sizes s)
  unfolding latency_tests
  latency_tests-Waits k [] s ok okr rand valid e lt = absurd (omega (arith, lt))
  latency_tests-Waits zero (size ∷ sizes) s ok okr rand valid e lt =
      let (out, many, w) = latency_test-Waits size s ok rand valid.0 (nil_of_length s.inbound e) in
      (out, omega (arith, many), Waits.in_first _ w)
  latency_tests-Waits (suc k) (size ∷ sizes) s ok okr rand valid e lt =
      let (bytes, many, test) =
        latency_test-Effect K F size s ok okr rand valid.0 (omega (arith, e)) in
      let s1 = after s bytes 1 num_buffers test.last in
      let (out, more, rest) =
        latency_tests-Waits k sizes s1 (Sends-later test.later ok) okr rand valid.1
          (omega (arith, e, length-drop 1 s.inbound)) (omega (arith, lt)) in
      (
        bytes ++ out,
        omega (arith, many, more, length-append bytes out),
        Waits.bind_at s bytes out 1 num_buffers _ test (Waits.in_first _ rest),
      )

  pub run_latency_tests-Waits :
      (k : ℕ) (s : Process)
      → Sends K s.calls
      → Receives K
      → Random K
      → length s.inbound ≡ k
      → k < length latency_buffer_sizes
      → (out : List ℕ) × (length out ≡ volume (take (suc k) latency_buffer_sizes))
        × Waits s out (run_latency_tests K F s)
  unfolding run_latency_tests
  run_latency_tests-Waits k s ok okr rand e lt =
      latency_tests-Waits k latency_buffer_sizes s ok okr rand latency_buffer_sizes-IsChunkSize e lt
