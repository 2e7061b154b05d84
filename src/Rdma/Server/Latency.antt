-- ===== src/Rdma/Server/Latency.antt =====
-- The calls that the latency tests of the server make, as lists.
use rdma_project.Common.{ℕ, zero, suc, List, [], ◌∷◌, ◌++◌, replicate}
use rdma_project.Settings.{latency_buffer_sizes, num_loops, max_buffer_size}
use rdma_project.Rdma.Verbs.{Op, Log, accept, receive, randomize}
use rdma_project.Rdma.Verbs.Emits
use rdma_project.Rdma.Verbs.Emits.{Emits, Any, emit_lem}
use rdma_project.Rdma.Client.Calls.{calls_for}
use rdma_project.Rdma.Client.Latency.{All-Any}
use rdma_project.Rdma.Server.{
  wait_for_control_message, receive_loop, two_sided_latency_test, run_read_latency_tests,
  run_write_latency_tests, run_two_sided_latency_tests, run_latency_tests,
}
use rdma_project.Rdma.Server.Calls.{for_sizes-calls_for}

abbrev pub two_sided_calls : ℕ → List Op
two_sided_calls size = receive 1 ∷ (replicate num_loops (receive size) ++ receive 1 ∷ [])

-- The calls of the three runs.
abbrev pub read_run : List Op
read_run = randomize max_buffer_size ∷ accept ∷ receive 1 ∷ []

abbrev pub write_run : List Op
write_run = accept ∷ receive 1 ∷ []

abbrev pub two_sided_run : List Op
two_sided_run = accept ∷ calls_for two_sided_calls latency_buffer_sizes

receive_loop-replicate :
    (n size : ℕ) (s : Log) → Emits s (replicate n (receive size)) Any (receive_loop n size s)
unfolding receive_loop
receive_loop-replicate zero size s = Emits.returns s tt tt
receive_loop-replicate (suc n) size s =
    Emits.bind s (receive size ∷ []) _ _ (emit_lem _ s) λ _ t _. receive_loop-replicate n size t

two_sided_latency_test-two_sided_calls :
    (size : ℕ) (s : Log) → Emits s (two_sided_calls size) Any (two_sided_latency_test size s)
unfolding two_sided_latency_test wait_for_control_message
two_sided_latency_test-two_sided_calls size s =
    Emits.bind s (receive 1 ∷ []) _ _ (emit_lem _ s) λ _ t _.
      Emits.bind t (replicate num_loops (receive size)) (receive 1 ∷ []) _
        (receive_loop-replicate num_loops size t) λ _ t _. emit_lem _ t

pub run_read_latency_tests-read_run : (s : Log) → Emits s read_run Any (run_read_latency_tests s)
unfolding run_read_latency_tests wait_for_control_message
run_read_latency_tests-read_run s =
    Emits.bind s (randomize max_buffer_size ∷ []) (accept ∷ receive 1 ∷ []) _ (emit_lem _ s)
      λ _ t _. Emits.bind t (accept ∷ []) (receive 1 ∷ []) _ (emit_lem _ t) λ _ t _. emit_lem _ t

pub run_write_latency_tests-write_run :
    (s : Log) → Emits s write_run Any (run_write_latency_tests s)
unfolding run_write_latency_tests wait_for_control_message
run_write_latency_tests-write_run s =
    Emits.bind s (accept ∷ []) (receive 1 ∷ []) _ (emit_lem _ s) λ _ t _. emit_lem _ t

run_two_sided_latency_tests-two_sided_run :
    (s : Log) → Emits s two_sided_run Any (run_two_sided_latency_tests s)
unfolding run_two_sided_latency_tests
run_two_sided_latency_tests-two_sided_run s = Emits.bind s (accept ∷ []) _ _ (emit_lem _ s) λ _ t _.
    for_sizes-calls_for Any _ two_sided_calls latency_buffer_sizes t
      (λ size t _. two_sided_latency_test-two_sided_calls size t) (All-Any latency_buffer_sizes)

-- The server's `run_latency_tests` returns, having made the calls of its three runs one behind the
-- other.
pub run_latency_tests-server_runs :
    (s : Log) → Emits s (read_run ++ (write_run ++ two_sided_run)) Any (run_latency_tests s)
unfolding run_latency_tests
run_latency_tests-server_runs s =
    Emits.bind s read_run _ _ (run_read_latency_tests-read_run s) λ _ t _.
      Emits.bind t write_run two_sided_run _ (run_write_latency_tests-write_run t)
        λ _ t _. run_two_sided_latency_tests-two_sided_run t
