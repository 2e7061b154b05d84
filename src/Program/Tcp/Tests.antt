-- ===== src/Program/Tcp/Tests.antt =====
-- A client and its server over TCP.
use Prim.Native.Nat.{min}
use Prim.Native.String.{String}
use rdma_project.Common.{
  ◌==◌, if◌then◌else◌, ℕ, ◌+◌, ◌*◌, ◌/◌, ◌^◌, ◌≡◌, refl, List, [], ◌∷◌, ◌++◌, some, arith, length,
  replicate,
}
use rdma_project.Settings.{buffer_sizes, latency_buffer_sizes}
use rdma_project.Measure.{Floating}
use rdma_project.Host.{Kernel, Process, count, blocks, done}
use rdma_project.Host.Reliable.{Sends, Receives, Patient}
use rdma_project.Utils.RandomData.{Random}
use rdma_project.Cli.{
  Conversions, Task, connects, serves, tcp_client, tcp_server, throughput_tests, latency_tests,
  main,
}
use rdma_project.Program.Tcp.{run_tcp_client, run_tcp_server}
use rdma_project.Program.Tcp.Transfer.{bytes_of, files_of}
use rdma_project.Program.Tcp.Exchange.{arrived, replies_after, tcp_programs_finish}

-- `send` takes as many bytes as it is given, `recv` gives two at most, and waits for one.
abbrev working : Kernel
working = record {
  send = λ t n. count n;
  recv = λ t n a. if a == 0 then blocks else count (min (min n a) 2);
  open_file = λ t. count 7;
  read = λ t fd n. count n;
  random = λ t i. t + i;
  now = λ t. 10 * t;
}

working-Sends : (t : ℕ) → Sends working t
working-Sends t = record { takes = λ u n le pos. (n, refl, pos, omega arith) }

working-Receives : Receives working
working-Receives = record {
  gives = λ t n a p q. (min (min n a) 2, ground arith, omega arith, omega arith, omega arith);
}

working-Patient : Patient working
working-Patient = record { waits = λ t n pos. refl }

working-Random : Random working
working-Random = record { opens = λ t. (7, refl); reads = λ t fd n. (n, refl, omega arith) }

abbrev fresh : Process
fresh = record { outbound = []; inbound = []; fds = 3; calls = 0 }

abbrev floats : Floating
floats = record { Double = ℕ; of_ℕ = λ n. n; divide = ◌/◌; multiply = ◌*◌; pow = ◌^◌ }

abbrev conversions : Conversions
conversions = record { to_string = λ n. "8001"; stoi = λ s. some 5000 }

abbrev arguments : List String
arguments = "experiments" ∷ "-connection" ∷ "tcp" ∷ []

abbrev tests : List Task
tests = throughput_tests 5000 ∷ latency_tests ∷ []

main_client : main conversions arguments ≡ connects (tcp_client "127.0.0.1" "8001") tests
unfolding main rdma_project.Cli.run_main rdma_project.Cli.get_data_size
    rdma_project.Cli.get_num_tuples rdma_project.Cli.get_test_metric rdma_project.Cli.metric_of
    rdma_project.Cli.get_connection_type rdma_project.Cli.connection_of rdma_project.Cli.start
    rdma_project.Cli.is_server rdma_project.Cli.has_arg rdma_project.Cli.get_server_ip
    rdma_project.Cli.connect rdma_project.Cli.make_client rdma_project.Cli.tasks
    rdma_project.Cli.get_arg_value rdma_project.Cli.next_arg rdma_project.Cli.serve
    rdma_project.Cli.make_server
main_client = refl

main_server : main conversions (arguments ++ "-s" ∷ []) ≡ serves (tcp_server "8001") tests
unfolding main rdma_project.Cli.run_main rdma_project.Cli.get_data_size
    rdma_project.Cli.get_num_tuples rdma_project.Cli.get_test_metric rdma_project.Cli.metric_of
    rdma_project.Cli.get_connection_type rdma_project.Cli.connection_of rdma_project.Cli.start
    rdma_project.Cli.is_server rdma_project.Cli.has_arg rdma_project.Cli.get_server_ip
    rdma_project.Cli.connect rdma_project.Cli.make_client rdma_project.Cli.tasks
    rdma_project.Cli.get_arg_value rdma_project.Cli.next_arg rdma_project.Cli.serve
    rdma_project.Cli.make_server
main_server = refl

tcp_programs_finish_example :
    (c' : Process) × (v' : Process) × (run_tcp_client working floats tests
        (arrived (replies_after working working floats fresh fresh tests tests 33) fresh)
      ≡ done tt c')
    × (run_tcp_server working tests (arrived c'.outbound fresh) ≡ done tt v')
    × (v'.outbound ≡ replies_after working working floats fresh fresh tests tests 33)
    × (v'.outbound ≡ replicate 33 b'y')
    × (length c'.outbound ≡ bytes_of tests)
    × (c'.inbound ≡ [])
    × (v'.inbound ≡ [])
    × (c'.fds ≡ 3 + files_of tests)
    × (v'.fds ≡ 3)
unfolding buffer_sizes latency_buffer_sizes
tcp_programs_finish_example =
    tcp_programs_finish working working floats fresh fresh conversions arguments main_client
      main_server (omega arith) (working-Sends 0) working-Receives working-Patient working-Random
      (working-Sends 0) working-Receives working-Patient
