-- ===== src/Rdma/Tests.antt =====
-- Concrete runs of the RDMA experiments.
use rdma_project.Common.{All, ℕ, ◌*◌, ◌/◌, ◌^◌, refl, ◌++◌, arith}
use rdma_project.Settings.{buffer_sizes, data_size}
use rdma_project.Measure.{Floating}
use rdma_project.Rdma.Verbs.Emits.{Emits, Any}
use rdma_project.Rdma.Client
use rdma_project.Rdma.Client.Calls as ClientCalls
use rdma_project.Rdma.Server
use rdma_project.Rdma.Server.Calls as ServerCalls
use rdma_project.Rdma.System.{here, IsFinished, start}
use rdma_project.Rdma.System.Dual.{comm, Dual}
use rdma_project.Rdma.Agreement.{calls_of, empty, Uneven, Dual-throughput}
use rdma_project.Rdma.Agreement
use rdma_project.Rdma.Surplus
use rdma_project.Rdma.Client.Latency as ClientLatency
use rdma_project.Rdma.Exclusive.Runs.{read_throughput}
use rdma_project.Rdma.Bounds.{InBounds, test_calls, accesses-InBounds}
use rdma_project.Rdma.Surplus.{two_sided_tp_test_unfinished}

abbrev clock : ℕ → ℕ
clock t = 10 * t

abbrev floats : Floating
floats = record { Double = ℕ; of_ℕ = λ n. n; divide = ◌/◌; multiply = ◌*◌; pow = ◌^◌ }

-- The amount of data that main.cpp is run with.
data_size-Uneven : Uneven data_size
unfolding buffer_sizes
data_size-Uneven = omega arith

Dual-throughput_example :
    Dual
      (comm (Agreement.client_calls clock floats data_size))
      (comm (Agreement.server_calls clock floats data_size))
Dual-throughput_example =
    Dual-throughput clock floats data_size (omega arith) (omega arith) data_size-Uneven

two_sided_tp_test_unfinished_example :
    ¬ IsFinished
      (start (Surplus.client_calls clock floats 2 4) (Surplus.server_calls clock floats 2 4))
two_sided_tp_test_unfinished_example =
    two_sided_tp_test_unfinished clock floats 2 4 (omega arith) (omega arith) (omega arith) refl
      here

run_throughput_tests-runs_example :
    Emits empty
      (ClientCalls.read_run 5 ++ (ClientCalls.write_run 5 ++ ClientCalls.two_sided_run 5))
      (λ (reads, writes, two_sided).
        ClientCalls.InOrder clock floats reads
        × ClientCalls.InOrder clock floats writes
        × ClientCalls.InOrder clock floats two_sided)
      (Client.run_throughput_tests clock floats 5 empty)
run_throughput_tests-runs_example =
    ClientCalls.run_throughput_tests-runs clock floats 5 empty (omega arith) (omega arith)

run_throughput_tests-server_runs_example :
    Emits empty
      (ServerCalls.read_run 5 ++ (ServerCalls.write_run 5 ++ ServerCalls.two_sided_run 5))
      Any
      (Server.run_throughput_tests 5 empty)
run_throughput_tests-server_runs_example =
    ServerCalls.run_throughput_tests-server_runs 5 empty (omega arith)

run_latency_tests-runs_example :
    Emits empty
      (ClientLatency.read_run ++ (ClientLatency.write_run ++ ClientLatency.two_sided_run))
      (λ (reads, writes, two_sided).
        ClientLatency.InOrder clock floats reads
        × ClientLatency.InOrder clock floats writes
        × ClientLatency.InOrder clock floats two_sided)
      (Client.run_latency_tests clock floats empty)
run_latency_tests-runs_example = ClientLatency.run_latency_tests-runs clock floats empty

accesses-InBounds_example :
    All (λ size. All (InBounds 5 5) (test_calls clock floats (read_throughput 5) size)) buffer_sizes
accesses-InBounds_example = accesses-InBounds clock floats (read_throughput 5) (omega arith)
