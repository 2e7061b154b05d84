-- ===== src/Program/Tests.antt =====
-- A client and its server over RDMA.
use Prim.Native.String.{String}
use mathlib.Core.Option as Option
use rdma_project.Common.{ℕ, ◌*◌, ◌/◌, ◌^◌, ◌≡◌, ◌⊎◌, refl, List, [], ◌∷◌, ◌++◌, some, arith}
use rdma_project.Settings.{buffer_sizes}
use rdma_project.Measure.{Floating}
use rdma_project.Cli.{
  Conversions, Task, connects, serves, rdma_client, rdma_server, throughput_tests, latency_tests,
  main,
}
use rdma_project.Rdma.System.{System, Step, Reach, here, IsFinished, start}
use rdma_project.Rdma.Setup.{RdmaClient, make_rdma_client, make_rdma_server}
use rdma_project.Program.Ports.{programs_same_port}
use rdma_project.Program.Safety.{
  Fits, client_calls, server_calls, programs_no_deadlock, programs_finish,
}

abbrev clock : ℕ → ℕ
clock t = 10 * t

abbrev floats : Floating
floats = record { Double = ℕ; of_ℕ = λ n. n; divide = ◌/◌; multiply = ◌*◌; pow = ◌^◌ }

abbrev conversions : Conversions
conversions = record { to_string = λ n. "8001"; stoi = λ s. some 5000 }

abbrev arguments : List String
arguments = "experiments" ∷ []

abbrev tests : List Task
tests = throughput_tests 5000 ∷ latency_tests ∷ []

main_client : main conversions arguments ≡ connects (rdma_client "127.0.0.1" "8001") tests
unfolding main rdma_project.Cli.run_main rdma_project.Cli.get_data_size
    rdma_project.Cli.get_num_tuples rdma_project.Cli.get_test_metric rdma_project.Cli.metric_of
    rdma_project.Cli.get_connection_type rdma_project.Cli.connection_of rdma_project.Cli.start
    rdma_project.Cli.is_server rdma_project.Cli.has_arg rdma_project.Cli.get_server_ip
    rdma_project.Cli.connect rdma_project.Cli.make_client rdma_project.Cli.tasks
    rdma_project.Cli.get_arg_value rdma_project.Cli.next_arg rdma_project.Cli.serve
    rdma_project.Cli.make_server
main_client = refl

main_server : main conversions (arguments ++ "-s" ∷ []) ≡ serves (rdma_server "8001") tests
unfolding main rdma_project.Cli.run_main rdma_project.Cli.get_data_size
    rdma_project.Cli.get_num_tuples rdma_project.Cli.get_test_metric rdma_project.Cli.metric_of
    rdma_project.Cli.get_connection_type rdma_project.Cli.connection_of rdma_project.Cli.start
    rdma_project.Cli.is_server rdma_project.Cli.has_arg rdma_project.Cli.get_server_ip
    rdma_project.Cli.connect rdma_project.Cli.make_client rdma_project.Cli.tasks
    rdma_project.Cli.get_arg_value rdma_project.Cli.next_arg rdma_project.Cli.serve
    rdma_project.Cli.make_server
main_server = refl

tests-Fits : Fits tests
unfolding buffer_sizes
tests-Fits = omega arith

abbrev begin : System
begin = start (client_calls clock floats tests) (server_calls clock floats tests)

programs_no_deadlock_example : IsFinished begin ⊎ ((v : System) × Step begin v)
programs_no_deadlock_example =
    programs_no_deadlock clock floats conversions arguments main_client main_server tests-Fits here

programs_finish_example : (u : System) × Reach begin u × Reach begin u × IsFinished u
programs_finish_example =
    programs_finish clock floats conversions arguments main_client main_server tests-Fits here

programs_same_port_example :
    Option.map (λ (c : RdmaClient). c.server_port) (make_rdma_client conversions "127.0.0.1" "8001")
    ≡ make_rdma_server conversions "8001"
programs_same_port_example = programs_same_port conversions arguments main_client main_server
