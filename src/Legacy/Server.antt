-- ===== src/Legacy/Server.antt =====
-- ConnectionExperiments/RunServer.cpp. The amount of data is an `int` that is not negative.
use rdma_project.Common.{ℕ, zero, suc, ◌-◌, ◌%◌, Bool, true, false, if◌then◌else◌}
use rdma_project.Settings.{DataDirection, write, read, two_sided, buffer_sizes}
use rdma_project.Rdma.Verbs.{Test, pure, out_of_fuel, ◌>>◌, emit, accept, send, receive, randomize}
use rdma_project.Rdma.Server.{for_sizes}
use rdma_project.Legacy.Ints.{add, mul, less}

unfoldable pub wait_for_control_message : Test (Unit {0})
wait_for_control_message = emit (receive 1)

unfoldable pub serve_test_data : (tuple_size num_tuples : ℕ) → Test (Unit {0})
serve_test_data tuple_size num_tuples = do
  emit (randomize (mul tuple_size num_tuples))
  emit accept
  wait_for_control_message

unfoldable pub receive_test_data : ℕ → Test (Unit {0})
receive_test_data data_size = do emit accept; wait_for_control_message

-- The `for` of `send_test_data`.
unfoldable pub send_loop : ℕ → (buffer_size final offset : ℕ) → Test (Unit {0})
send_loop zero buffer_size final offset = out_of_fuel
send_loop (suc f) buffer_size final offset =
    if less offset final
    then (do emit (send offset buffer_size); send_loop f buffer_size final (add offset buffer_size))
    else pure tt

unfoldable pub send_test_data : (buffer_size data_size : ℕ) → Test (Unit {0})
send_test_data buffer_size data_size = do
  wait_for_control_message
  let final = data_size - data_size % buffer_size
  send_loop (suc final) buffer_size final 0
  emit (send final (data_size % buffer_size))
  wait_for_control_message

-- The branch of `run_server` that calls `send_test_data`.
unfoldable pub send_tests : ℕ → Test (Unit {0})
send_tests data_size = do
  emit accept
  emit (randomize data_size)
  for_sizes (λ buffer_size. send_test_data buffer_size data_size) buffer_sizes

abbrev pub is_write : DataDirection → Bool
is_write write = true
is_write _ = false

abbrev pub is_read : DataDirection → Bool
is_read read = true
is_read _ = false

abbrev pub is_not_two_sided : DataDirection → Bool
is_not_two_sided two_sided = false
is_not_two_sided _ = true

-- The last test is for a direction that is not two-sided.
unfoldable pub run_server : (tuple_size num_tuples : ℕ) → DataDirection → Test (Unit {0})
run_server tuple_size num_tuples direction =
    if is_write direction
    then receive_test_data (mul tuple_size num_tuples)
    else if is_read direction
    then serve_test_data tuple_size num_tuples
    else if is_not_two_sided direction
    then send_tests (mul tuple_size num_tuples)
    else pure tt
