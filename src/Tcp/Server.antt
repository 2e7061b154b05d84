-- ===== src/Tcp/Server.antt =====
-- ConnectionExperiments/TcpServer.cpp: the tests of the server. `data` is a local of the test that
-- nothing reads in the end; a test returns it here, so that theorems can speak of it.
pub mod Received
pub mod Latency
pub mod Waits
use rdma_project.Common.{
  ℕ, zero, suc, ◌+◌, ◌-◌, ◌%◌, ◌^◌, List, [], ◌∷◌, take, length, replicate, overwrite, ltb,
  if◌then◌else◌,
}
use rdma_project.Settings.{buffer_sizes, latency_buffer_sizes, num_loops}
use rdma_project.Host.{Kernel, Cmd, pure, out_of_fuel, ◌>>=◌, ◌>>◌, sys_close}
use rdma_project.Tcp.Socket

-- `char* control_message = "y"`, with the NUL that ends it.
abbrev pub control_message : List ℕ
control_message = b'y' ∷ 0 ∷ []

module _ (K : Kernel) where
  -- The methods of TcpServer, which have the text of those of TcpClient.
  abbrev pub receive_message : ℕ → List ℕ → Cmd (List ℕ)
  receive_message buffer_size buffer = Socket.receive_message K buffer_size buffer

  abbrev pub send_tcp_message : List ℕ → ℕ → Cmd (Unit {0})
  send_tcp_message message size = Socket.send_tcp_message K message size

  -- The `for` of `throughput_test`: the little buffer and the data after the last full chunk.
  unfoldable pub receive_chunks :
      ℕ
      → (buffer_size last_index offset : ℕ) → (little_buffer bytes : List ℕ) → Cmd (List ℕ × List ℕ)
  receive_chunks zero buffer_size last_index offset little_buffer bytes = λ s. out_of_fuel
  receive_chunks (suc f) buffer_size last_index offset little_buffer bytes =
      if ltb offset last_index
      then (do
        little ← receive_message buffer_size little_buffer
        receive_chunks f buffer_size last_index ((offset + buffer_size) % 2 ^ 64) little
            (overwrite offset little bytes))
      else pure (little_buffer, bytes)

  unfoldable pub throughput_test : ℕ → ℕ → Cmd (List ℕ)
  throughput_test buffer_size data_size = do
    let last_index = data_size - data_size % buffer_size
    (little_buffer, bytes) ←
        receive_chunks (suc last_index) buffer_size last_index 0 (replicate buffer_size 0)
          (replicate data_size 0)
    little ← receive_message (data_size % buffer_size) little_buffer
    let kept = length little - (length little - data_size % buffer_size)
    send_tcp_message control_message 1
    pure (overwrite last_index (take kept little) bytes)

  -- The `for` of `run_throughput_tests`.
  unfoldable pub throughput_tests : List ℕ → ℕ → Cmd (List (List ℕ))
  throughput_tests [] data_size = pure []
  throughput_tests (buffer_size ∷ sizes) data_size = do
    got ← throughput_test buffer_size data_size
    rest ← throughput_tests sizes data_size
    pure (got ∷ rest)

  unfoldable pub run_throughput_tests : ℕ → Cmd (List (List ℕ))
  run_throughput_tests data_size = throughput_tests buffer_sizes data_size

  -- The `for` of `latency_test`: `n` rounds are left.
  unfoldable pub receive_loops : ℕ → ℕ → (little_buffer bytes : List ℕ) → Cmd (List ℕ)
  receive_loops zero buffer_size little_buffer bytes = pure bytes
  receive_loops (suc n) buffer_size little_buffer bytes = do
    little ← receive_message buffer_size little_buffer
    receive_loops n buffer_size little (overwrite 0 little bytes)

  unfoldable pub latency_test : ℕ → Cmd (List ℕ)
  latency_test buffer_size = do
    bytes ← receive_loops num_loops buffer_size (replicate buffer_size 0) (replicate buffer_size 0)
    send_tcp_message control_message 1
    pure bytes

  -- The `for` of `run_latency_tests`.
  unfoldable pub latency_tests : List ℕ → Cmd (List (List ℕ))
  latency_tests [] = pure []
  latency_tests (buffer_size ∷ sizes) = do
    got ← latency_test buffer_size
    rest ← latency_tests sizes
    pure (got ∷ rest)

  unfoldable pub run_latency_tests : Cmd (List (List ℕ))
  run_latency_tests = latency_tests latency_buffer_sizes

  -- The destructor closes the socket.
  unfoldable pub destroy : Cmd (Unit {0})
  destroy = sys_close K
