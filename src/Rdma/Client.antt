-- ===== src/Rdma/Client.antt =====
-- ConnectionExperiments/RdmaClient.cpp. A run of tests returns the lines of its results file.
-- The local buffer that a test makes for itself is not part of it: its length and contents are named
-- where a theorem is about them. A request comes with the wait for its completion.
pub mod Plan
pub mod Calls
pub mod Latency
use rdma_project.Common.{ℕ, zero, suc, ◌+◌, ◌-◌, ◌%◌, ◌^◌, List, [], ◌∷◌, ltb, if◌then◌else◌}
use rdma_project.Settings.{buffer_sizes, latency_buffer_sizes, num_loops}
use rdma_project.Measure.{Floating, TestResult, calculate_throughput, mean_latency}
use rdma_project.Rdma.Verbs.{
  Test, pure, out_of_fuel, ◌>>=◌, ◌>>◌, emit, now, connect, send, receive, read, write, randomize,
}

-- A control message is one byte.
unfoldable pub connect_to_remote_buffer : Test (Unit {0})
connect_to_remote_buffer = emit connect

unfoldable pub send_control_message : Test (Unit {0})
send_control_message = emit (send 0 1)

unfoldable pub wait_for_control_message : Test (Unit {0})
wait_for_control_message = emit (receive 1)

-- The `for` of `read_tp_test`.
unfoldable pub read_loop : ℕ → (buffer_size last_index offset : ℕ) → Test (Unit {0})
read_loop zero buffer_size last_index offset = out_of_fuel
read_loop (suc f) buffer_size last_index offset =
    if ltb offset last_index
    then (do
      emit (read offset offset buffer_size)
      read_loop f buffer_size last_index ((offset + buffer_size) % 2 ^ 64))
    else pure tt

-- The `for` of `write_tp_test`.
unfoldable pub write_loop : ℕ → (buffer_size last_index offset : ℕ) → Test (Unit {0})
write_loop zero buffer_size last_index offset = out_of_fuel
write_loop (suc f) buffer_size last_index offset =
    if ltb offset last_index
    then (do
      emit (write offset offset buffer_size)
      write_loop f buffer_size last_index ((offset + buffer_size) % 2 ^ 64))
    else pure tt

-- The `for` of `two_sided_tp_test`.
unfoldable pub receive_loop : ℕ → (buffer_size data_size x : ℕ) → Test (Unit {0})
receive_loop zero buffer_size data_size x = out_of_fuel
receive_loop (suc f) buffer_size data_size x =
    if ltb x data_size
    then (do
      emit (receive buffer_size)
      receive_loop f buffer_size data_size ((x + buffer_size) % 2 ^ 64))
    else pure tt

-- The `for (int i = 0; i < num_loops; i++)` of the latency tests, with `n` rounds left.
unfoldable pub repeat : ℕ → Test (Unit {0}) → Test (Unit {0})
repeat zero body = pure tt
repeat (suc n) body = do body; repeat n body

module _ (clock : ℕ → ℕ) (F : Floating) where
  open F use {Double}

  unfoldable pub read_tp_test : (buffer_size data_size : ℕ) → Test Double
  read_tp_test buffer_size data_size = do
    let last_index = data_size - data_size % buffer_size
    wait_for_control_message
    start ← now clock
    read_loop (suc last_index) buffer_size last_index 0
    emit (read last_index last_index (data_size % buffer_size))
    send_control_message
    stop ← now clock
    pure (calculate_throughput F start stop data_size)

  unfoldable pub write_tp_test : (buffer_size data_size : ℕ) → Test Double
  write_tp_test buffer_size data_size = do
    let last_index = data_size - data_size % buffer_size
    wait_for_control_message
    start ← now clock
    write_loop (suc last_index) buffer_size last_index 0
    emit (write last_index last_index (data_size % buffer_size))
    send_control_message
    stop ← now clock
    pure (calculate_throughput F start stop data_size)

  unfoldable pub two_sided_tp_test : (buffer_size data_size : ℕ) → Test Double
  two_sided_tp_test buffer_size data_size = do
    send_control_message
    start ← now clock
    receive_loop (suc data_size) buffer_size data_size 0
    send_control_message
    stop ← now clock
    pure (calculate_throughput F start stop data_size)

  -- A `for` over chunk sizes that collects a line for each.
  unfoldable pub for_sizes : (ℕ → Test Double) → List ℕ → Test (List (TestResult Double))
  for_sizes test [] = pure []
  for_sizes test (buffer_size ∷ sizes) = do
    value ← test buffer_size
    rest ← for_sizes test sizes
    pure (record { buffer_size = buffer_size; value = value } ∷ rest)

  unfoldable pub run_read_tp_tests : ℕ → Test (List (TestResult Double))
  run_read_tp_tests data_size = do
    connect_to_remote_buffer
    results ← for_sizes (λ buffer_size. read_tp_test buffer_size data_size) buffer_sizes
    send_control_message
    pure results

  -- The data are random at first, and are made so again behind each test.
  unfoldable pub run_write_tp_tests : ℕ → Test (List (TestResult Double))
  run_write_tp_tests data_size = do
    emit (randomize data_size)
    connect_to_remote_buffer
    results ←
        for_sizes
          (λ buffer_size. do
            value ← write_tp_test buffer_size data_size
            emit (randomize data_size)
            pure value)
          buffer_sizes
    send_control_message
    pure results

  unfoldable pub run_two_sided_tp_tests : ℕ → Test (List (TestResult Double))
  run_two_sided_tp_tests data_size = do
    connect_to_remote_buffer
    for_sizes (λ buffer_size. two_sided_tp_test buffer_size data_size) buffer_sizes

  -- The lines of the three results files.
  unfoldable pub run_throughput_tests :
      ℕ → Test (List (TestResult Double) × List (TestResult Double) × List (TestResult Double))
  run_throughput_tests data_size = do
    reads ← run_read_tp_tests data_size
    writes ← run_write_tp_tests data_size
    two_sided ← run_two_sided_tp_tests data_size
    pure (reads, writes, two_sided)

  unfoldable pub read_latency_test : ℕ → Test Double
  read_latency_test buffer_size = do
    start ← now clock
    repeat num_loops (emit (read 0 0 buffer_size))
    stop ← now clock
    pure (mean_latency F start stop num_loops)

  unfoldable pub write_latency_test : ℕ → Test Double
  write_latency_test buffer_size = do
    emit (randomize buffer_size)
    start ← now clock
    repeat num_loops (emit (write 0 0 buffer_size))
    stop ← now clock
    pure (mean_latency F start stop num_loops)

  unfoldable pub two_sided_latency_test : ℕ → Test Double
  two_sided_latency_test buffer_size = do
    send_control_message
    start ← now clock
    repeat num_loops (emit (send 0 buffer_size))
    send_control_message
    stop ← now clock
    pure (mean_latency F start stop num_loops)

  unfoldable pub run_read_latency_tests : Test (List (TestResult Double))
  run_read_latency_tests = do
    connect_to_remote_buffer
    results ← for_sizes read_latency_test latency_buffer_sizes
    send_control_message
    pure results

  unfoldable pub run_write_latency_tests : Test (List (TestResult Double))
  run_write_latency_tests = do
    connect_to_remote_buffer
    results ← for_sizes write_latency_test latency_buffer_sizes
    send_control_message
    pure results

  unfoldable pub run_two_sided_latency_tests : Test (List (TestResult Double))
  run_two_sided_latency_tests = do
    connect_to_remote_buffer
    for_sizes two_sided_latency_test latency_buffer_sizes

  unfoldable pub run_latency_tests :
      Test (List (TestResult Double) × List (TestResult Double) × List (TestResult Double))
  run_latency_tests = do
    reads ← run_read_latency_tests
    writes ← run_write_latency_tests
    two_sided ← run_two_sided_latency_tests
    pure (reads, writes, two_sided)
