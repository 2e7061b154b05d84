-- ===== src/Tcp/Tests.antt =====
-- Concrete kernels and runs of the TCP experiments.
use Prim.Native.Nat.{min}
use rdma_project.Common.{
  ℕ, ◌+◌, ◌*◌, ◌/◌, ◌^◌, ◌≤◌, ◌≡◌, refl, List, [], ◌∷◌, ◌++◌, arith, length, if◌then◌else◌,
  replicate, ◌==◌, map, flatten, take, drop,
}
use rdma_project.Settings.{buffer_sizes, latency_buffer_sizes}
use rdma_project.Host.{Kernel, Process, count, failed, done}
use rdma_project.Host.Effect.{Effect}
use rdma_project.Host.Reliable.{Sends, Receives, IsBounded}
use rdma_project.Measure.{Floating, TestResult}
use rdma_project.Utils.RandomData.{Random, HasLength, dev_random_data-Effect}
use rdma_project.Utils.{dev_random_data}
use rdma_project.Tcp.Socket.{send_tcp_message, receive_message}
use rdma_project.Tcp.Socket.Send.{
  SendsOut, send_tcp_message-take, send_tcp_message_lost, send_tcp_message_repeats,
}
use rdma_project.Tcp.Socket.Receive.{ReceivesInto, receive_message-overwrite, receive_message_exact}
use rdma_project.Tcp.Client
use rdma_project.Tcp.Client.{num_buffers}
use rdma_project.Tcp.Client.Latency.{volume}
use rdma_project.Tcp.Server
use rdma_project.Tcp.Server.Latency.{LastMessages}
use rdma_project.Tcp.Transfer.Latency.{run_latency_tests_transfer}
use rdma_project.Tcp.Transfer.{delivered, throughput_test_transfer, run_throughput_tests_transfer}

-- `send` takes three bytes at a time, `recv` gives two; the calls of `send` for which `bad` holds
-- fail.
abbrev kernel : (ℕ → ℕ) → Kernel
kernel bad = record {
  send = λ t n. if bad t == 1 then failed else count (min n 3);
  recv = λ t n a. count (min (min n a) 2);
  open_file = λ t. count 7;
  read = λ t fd n. count (min n 5);
  random = λ t i. t + i;
  now = λ t. 10 * t;
}

abbrev working : Kernel
working = kernel (λ t. 0)

working-Sends : (t : ℕ) → Sends working t
working-Sends t = record { takes = λ u n le pos. (min n 3, refl, omega arith, omega arith) }

working-Receives : Receives working
working-Receives = record {
  gives = λ t n a p q. (min (min n a) 2, refl, omega arith, omega arith, omega arith);
}

working-Random : Random working
working-Random = record { opens = λ t. (7, refl); reads = λ t fd n. (min n 5, refl, omega arith) }

working-IsBounded : IsBounded working
working-IsBounded = record {
  recv_le = λ t n a k e. ground arith;
  read_le = λ t fd n k e. ground arith;
}

-- Call 1 fails.
abbrev flaky : Kernel
flaky = kernel (λ t. t)

flaky-Sends : (t : ℕ) → 2 ≤ t → Sends flaky t
flaky-Sends t h = record { takes = λ u n le pos. (min n 3, ground arith, omega arith, omega arith) }

abbrev fresh : List ℕ → Process
fresh arrived = record { outbound = []; inbound = arrived; fds = 3; calls = 0 }

abbrev five : List ℕ
five = 10 ∷ 20 ∷ 30 ∷ 40 ∷ 50 ∷ []

abbrev floats : Floating
floats = record { Double = ℕ; of_ℕ = λ n. n; divide = ◌/◌; multiply = ◌*◌; pow = ◌^◌ }

send_tcp_message-take_example :
    SendsOut (fresh []) (take 4 five) (send_tcp_message working five 4 (fresh []))
send_tcp_message-take_example =
    send_tcp_message-take working five 4 (fresh []) (working-Sends 0) (omega arith)

send_tcp_message_repeats_example :
    SendsOut
      (fresh [])
      (take 3 five ++ take 3 (drop 2 five))
      (send_tcp_message flaky five 5 (fresh []))
send_tcp_message_repeats_example =
    send_tcp_message_repeats flaky five 5 2 (fresh []) refl refl (flaky-Sends 2 (omega arith))
      (omega arith) (omega arith)

-- Byte 30 arrives twice.
send_tcp_message_repeats_run :
    send_tcp_message flaky five 5 (fresh [])
    ≡ done tt
        (record { outbound = 10 ∷ 20 ∷ 30 ∷ 30 ∷ 40 ∷ 50 ∷ []; inbound = []; fds = 3; calls = 3 })
unfolding send_tcp_message rdma_project.Tcp.Socket.send_loop rdma_project.Host.sys_send
send_tcp_message_repeats_run = refl

send_tcp_message_lost_example :
    SendsOut
      (record (fresh []) { calls = 1 })
      []
      (send_tcp_message flaky five 5 (record (fresh []) { calls = 1 }))
send_tcp_message_lost_example =
    send_tcp_message_lost flaky five 5 (record (fresh []) { calls = 1 }) refl (omega arith)
      (omega arith)

receive_message-overwrite_example :
    ReceivesInto
      (fresh five)
      0
      3
      (0 ∷ 0 ∷ 0 ∷ 9 ∷ [])
      (receive_message working 3 (0 ∷ 0 ∷ 0 ∷ 9 ∷ []) (fresh five))
receive_message-overwrite_example =
    receive_message-overwrite working working-Receives 3 (0 ∷ 0 ∷ 0 ∷ 9 ∷ []) (fresh five)
      (omega arith) (omega arith) (omega arith)

receive_message_exact_example :
    (3 ≤ length five)
    × ReceivesInto
        (fresh five)
        0
        3
        (0 ∷ 0 ∷ 0 ∷ [])
        (done (10 ∷ 20 ∷ 30 ∷ []) (record (fresh (40 ∷ 50 ∷ [])) { calls = 2 }))
unfolding receive_message rdma_project.Tcp.Socket.receive_loop rdma_project.Host.sys_recv
receive_message_exact_example =
    receive_message_exact working working-IsBounded 3 (0 ∷ 0 ∷ 0 ∷ []) (fresh five) (omega arith)
      (omega arith) refl

throughput_test_transfer_example :
    (t : ℕ) × (c' : Process) × (Client.throughput_test working floats 2 five (fresh (b'y' ∷ []))
      ≡ done t c')
    × Effect
        (delivered c' (fresh []))
        (b'y' ∷ [])
        5
        0
        (λ d. d ≡ five)
        (Server.throughput_test working 2 5 (delivered c' (fresh [])))
throughput_test_transfer_example =
    throughput_test_transfer working working floats (fresh (b'y' ∷ [])) (fresh []) 2 five
      (working-Sends 0) working-Receives (working-Sends 0) working-Receives (omega arith)
      (omega arith) (omega arith) refl (omega arith)

-- One `y` for each chunk size.
abbrev replies : List ℕ
replies = replicate 16 b'y'

run_throughput_tests_transfer_example :
    (results : List (TestResult ℕ)) × (c' : Process) × (Client.run_throughput_tests working floats 5
        (fresh replies)
      ≡ done results c')
    × (map (λ r. r.buffer_size) results ≡ buffer_sizes)
    × (c'.fds ≡ 3 + (1 + length buffer_sizes))
    × Effect
        (delivered c' (fresh []))
        (replicate (length buffer_sizes) b'y')
        (length buffer_sizes * 5)
        0
        (λ ds. flatten ds ≡ c'.outbound)
        (Server.run_throughput_tests working 5 (delivered c' (fresh [])))
unfolding buffer_sizes
run_throughput_tests_transfer_example =
    run_throughput_tests_transfer working working floats (fresh replies) (fresh []) 5
      (working-Sends 0) working-Receives working-Random (working-Sends 0) working-Receives
      (omega arith) (omega arith) refl (omega arith)

dev_random_data-Effect_example :
    Effect (fresh []) [] 0 1 (HasLength 5) (dev_random_data working five 5 (fresh []))
dev_random_data-Effect_example =
    dev_random_data-Effect working working-Random five 5 (fresh []) (omega arith)

-- One `y` for each chunk size of the latency tests.
abbrev latency_replies : List ℕ
latency_replies = replicate 17 b'y'

run_latency_tests_transfer_example :
    (results : List (TestResult ℕ)) × (c' : Process) × (Client.run_latency_tests working floats
        (fresh latency_replies)
      ≡ done results c')
    × (map (λ r. r.buffer_size) results ≡ latency_buffer_sizes)
    × (c'.fds ≡ 3 + length latency_buffer_sizes * num_buffers)
    × (length c'.outbound ≡ volume latency_buffer_sizes)
    × Effect
        (delivered c' (fresh []))
        (replicate (length latency_buffer_sizes) b'y')
        (volume latency_buffer_sizes)
        0
        (LastMessages latency_buffer_sizes c'.outbound)
        (Server.run_latency_tests working (delivered c' (fresh [])))
unfolding latency_buffer_sizes
run_latency_tests_transfer_example =
    run_latency_tests_transfer working working floats (fresh latency_replies) (fresh [])
      (working-Sends 0) working-Receives working-Random (working-Sends 0) working-Receives refl
      (omega arith)
