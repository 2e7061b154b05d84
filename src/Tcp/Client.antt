-- ===== src/Tcp/Client.antt =====
-- ConnectionExperiments/TcpClient.cpp: the tests of the client. A test returns the line that it adds
-- to the results file. Offsets are `size_t`; each loop is given as many rounds as it can need.
pub mod Sent
pub mod Latency
pub mod Waits
use rdma_project.Common.{
  ℕ, zero, suc, ◌+◌, ◌-◌, ◌%◌, ◌^◌, List, [], ◌∷◌, drop, length, get_or, ltb, if◌then◌else◌,
}
use rdma_project.Settings.{buffer_sizes, latency_buffer_sizes, num_loops}
use rdma_project.Host.{Kernel, Cmd, pure, out_of_fuel, ◌>>=◌, ◌>>◌, sys_now, sys_close}
use rdma_project.Measure.{Floating, TestResult, calculate_throughput, mean_latency}
use rdma_project.Utils.{dev_random_data, generate_random_data}
use rdma_project.Tcp.Socket.{send_tcp_message, receive_message}

abbrev pub num_buffers : ℕ
num_buffers = 40

module _ (K : Kernel) where
  -- The `for` of `throughput_test`.
  unfoldable pub send_chunks : ℕ → List ℕ → (buffer_size last_index offset : ℕ) → Cmd (Unit {0})
  send_chunks zero data' buffer_size last_index offset = λ s. out_of_fuel
  send_chunks (suc f) data' buffer_size last_index offset =
      if ltb offset last_index
      then (do
        send_tcp_message K (drop offset data') buffer_size
        send_chunks f data' buffer_size last_index ((offset + buffer_size) % 2 ^ 64))
      else pure tt

  -- The `for` of `latency_test`: `n` rounds are left, and the next buffer is number `i % num_buffers`.
  unfoldable pub send_loops : ℕ → (i : ℕ) → List (List ℕ) → ℕ → Cmd (Unit {0})
  send_loops zero i buffers buffer_size = pure tt
  send_loops (suc n) i buffers buffer_size = do
    send_tcp_message K (get_or buffers (i % num_buffers) []) buffer_size
    send_loops n (i + 1) buffers buffer_size

  -- The `for` that fills `dataBuffers`.
  unfoldable pub make_buffers : ℕ → ℕ → Cmd (List (List ℕ))
  make_buffers zero buffer_size = pure []
  make_buffers (suc n) buffer_size = do
    buf ← generate_random_data K buffer_size
    rest ← make_buffers n buffer_size
    pure (buf ∷ rest)

module _ (K : Kernel) (F : Floating) where
  open F use {Double}

  -- `data` is passed by value. The reply is one byte, read into the copy.
  unfoldable pub throughput_test : ℕ → List ℕ → Cmd Double
  throughput_test buffer_size data' = do
    let last_index = length data' - length data' % buffer_size
    start ← sys_now K
    send_chunks K (suc last_index) data' buffer_size last_index 0
    send_tcp_message K (drop last_index data') (length data' % buffer_size)
    receive_message K 1 data'
    stop ← sys_now K
    pure (calculate_throughput F start stop (length data'))

  -- The `for` of `run_throughput_tests`.
  unfoldable pub throughput_tests : List ℕ → List ℕ → ℕ → Cmd (List (TestResult Double))
  throughput_tests [] data' data_size = pure []
  throughput_tests (buffer_size ∷ sizes) data' data_size = do
    throughput ← throughput_test buffer_size data'
    fresh ← dev_random_data K data' data_size
    rest ← throughput_tests sizes fresh data_size
    pure (record { buffer_size = buffer_size; value = throughput } ∷ rest)

  unfoldable pub run_throughput_tests : ℕ → Cmd (List (TestResult Double))
  run_throughput_tests data_size = do
    data' ← generate_random_data K data_size
    throughput_tests buffer_sizes data' data_size

  unfoldable pub latency_test : ℕ → Cmd Double
  latency_test buffer_size = do
    buffers ← make_buffers K num_buffers buffer_size
    start ← sys_now K
    send_loops K num_loops 0 buffers buffer_size
    receive_message K 1 (get_or buffers 0 [])
    stop ← sys_now K
    pure (mean_latency F start stop num_loops)

  -- The `for` of `run_latency_tests`.
  unfoldable pub latency_tests : List ℕ → Cmd (List (TestResult Double))
  latency_tests [] = pure []
  latency_tests (buffer_size ∷ sizes) = do
    latency ← latency_test buffer_size
    rest ← latency_tests sizes
    pure (record { buffer_size = buffer_size; value = latency } ∷ rest)

  unfoldable pub run_latency_tests : Cmd (List (TestResult Double))
  run_latency_tests = latency_tests latency_buffer_sizes

  -- The destructor closes the socket.
  unfoldable pub destroy : Cmd (Unit {0})
  destroy = sys_close K
