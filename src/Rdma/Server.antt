-- ===== src/Rdma/Server.antt =====
-- ConnectionExperiments/RdmaServer.cpp.
pub mod Calls
pub mod Latency
use rdma_project.Common.{ℕ, zero, suc, ◌+◌, ◌-◌, ◌%◌, ◌^◌, List, [], ◌∷◌, ltb, if◌then◌else◌}
use rdma_project.Settings.{buffer_sizes, latency_buffer_sizes, num_loops, max_buffer_size}
use rdma_project.Rdma.Verbs.{
  Test, pure, out_of_fuel, ◌>>=◌, ◌>>◌, emit, accept, send, receive, randomize, clear,
}

unfoldable pub wait_for_control_message : Test (Unit {0})
wait_for_control_message = emit (receive 1)

unfoldable pub send_control_message : Test (Unit {0})
send_control_message = emit (send 0 1)

-- A `for` over chunk sizes.
unfoldable pub for_sizes : (ℕ → Test (Unit {0})) → List ℕ → Test (Unit {0})
for_sizes body [] = pure tt
for_sizes body (buffer_size ∷ sizes) = do body buffer_size; for_sizes body sizes

unfoldable pub run_read_tp_tests : ℕ → Test (Unit {0})
run_read_tp_tests data_size = do
  emit accept
  for_sizes
      (λ unused. do emit (randomize data_size); send_control_message; wait_for_control_message)
      buffer_sizes
  wait_for_control_message

unfoldable pub run_write_tp_tests : ℕ → Test (Unit {0})
run_write_tp_tests data_size = do
  emit accept
  for_sizes (λ unused. do emit (clear data_size); send_control_message; wait_for_control_message)
      buffer_sizes
  wait_for_control_message

-- The `for` of `two_sided_tp_test`.
unfoldable pub send_loop : ℕ → (buffer_size last_index offset : ℕ) → Test (Unit {0})
send_loop zero buffer_size last_index offset = out_of_fuel
send_loop (suc f) buffer_size last_index offset =
    if ltb offset last_index
    then (do
      emit (send offset buffer_size)
      send_loop f buffer_size last_index ((offset + buffer_size) % 2 ^ 64))
    else pure tt

unfoldable pub two_sided_tp_test : (buffer_size data_size : ℕ) → Test (Unit {0})
two_sided_tp_test buffer_size data_size = do
  wait_for_control_message
  let last_index = data_size - data_size % buffer_size
  send_loop (suc last_index) buffer_size last_index 0
  emit (send last_index (data_size % buffer_size))
  wait_for_control_message

-- The data are made after the connection, and each test gets a copy.
unfoldable pub run_two_sided_tp_tests : ℕ → Test (Unit {0})
run_two_sided_tp_tests data_size = do
  emit accept
  emit (randomize data_size)
  for_sizes (λ buffer_size. two_sided_tp_test buffer_size data_size) buffer_sizes

unfoldable pub run_throughput_tests : ℕ → Test (Unit {0})
run_throughput_tests data_size = do
  run_read_tp_tests data_size
  run_write_tp_tests data_size
  run_two_sided_tp_tests data_size

unfoldable pub run_read_latency_tests : Test (Unit {0})
run_read_latency_tests = do emit (randomize max_buffer_size); emit accept; wait_for_control_message

unfoldable pub run_write_latency_tests : Test (Unit {0})
run_write_latency_tests = do emit accept; wait_for_control_message

-- The `for` of `two_sided_latency_test`, with `n` rounds left. A short message is only reported.
unfoldable pub receive_loop : ℕ → ℕ → Test (Unit {0})
receive_loop zero buffer_size = pure tt
receive_loop (suc n) buffer_size = do emit (receive buffer_size); receive_loop n buffer_size

unfoldable pub two_sided_latency_test : ℕ → Test (Unit {0})
two_sided_latency_test buffer_size = do
  wait_for_control_message
  receive_loop num_loops buffer_size
  wait_for_control_message

unfoldable pub run_two_sided_latency_tests : Test (Unit {0})
run_two_sided_latency_tests = do emit accept; for_sizes two_sided_latency_test latency_buffer_sizes

unfoldable pub run_latency_tests : Test (Unit {0})
run_latency_tests = do run_read_latency_tests; run_write_latency_tests; run_two_sided_latency_tests
