-- ===== src/Cli/Tests.antt =====
-- Runs of the program on concrete arguments.
use Prim.Native.String.{String}
use text.Mathlib.TextEquality.{eq_iff}
use rdma_project.Common.{◌≡◌, refl, List, [], ◌∷◌, ◌++◌, some, none, arith}
use rdma_project.Cli.{
  Conversions, get_arg_value, Program, serves, connects, Server, tcp_client, tcp_server,
  throughput_tests, latency_tests, main,
}
use rdma_project.Cli.Options.{get_arg_value_last}
use rdma_project.Cli.Agreement.{Matches, main-append}

abbrev conversions : Conversions
conversions = record { to_string = λ n. "8001"; stoi = λ s. some 5000 }

abbrev arguments : List String
arguments = "experiments" ∷ "-connection" ∷ "tcp" ∷ []

get_arg_value_last_example : get_arg_value ("experiments" ∷ "-metric" ∷ []) "-metric" "all" ≡ none
get_arg_value_last_example =
    get_arg_value_last ("experiments" ∷ []) "-metric" "all"
      (ground (arith, eq_iff "experiments" "-metric"), tt)

main_client :
    main conversions arguments
    ≡ connects (tcp_client "127.0.0.1" "8001") (throughput_tests 5000 ∷ latency_tests ∷ [])
unfolding main rdma_project.Cli.run_main rdma_project.Cli.get_data_size
    rdma_project.Cli.get_num_tuples rdma_project.Cli.get_test_metric rdma_project.Cli.metric_of
    rdma_project.Cli.get_connection_type rdma_project.Cli.connection_of rdma_project.Cli.start
    rdma_project.Cli.is_server rdma_project.Cli.has_arg rdma_project.Cli.get_server_ip
    rdma_project.Cli.connect rdma_project.Cli.make_client rdma_project.Cli.tasks
    rdma_project.Cli.get_arg_value rdma_project.Cli.next_arg
main_client = refl

main-append_example :
    (s : Server) × (main conversions (arguments ++ "-s" ∷ [])
      ≡ serves s (throughput_tests 5000 ∷ latency_tests ∷ []))
    × Matches (tcp_client "127.0.0.1" "8001") s
main-append_example = main-append conversions arguments main_client
