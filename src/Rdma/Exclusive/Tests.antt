-- ===== src/Rdma/Exclusive/Tests.antt =====
-- A read of the server's data in a run of the read tests.
use rdma_project.Common.{
  replicate, length-replicate, ℕ, ◌≡◌, ◌*◌, ◌/◌, ◌^◌, refl, sym, ap, ◌++◌, List, [], ◌∷◌, drop,
  arith,
}
use rdma_project.Settings.{buffer_sizes}
use rdma_project.Measure.{Floating}
use rdma_project.Rdma.Verbs.{Op, read, write, receive, randomize, clear}
use rdma_project.Rdma.Client
use rdma_project.Rdma.Agreement.{empty, calls_of, calls_of-Emits}
use rdma_project.Rdma.Exclusive.Copies.{Memory, applies, stay, go_on}
use rdma_project.Rdma.Exclusive.Transfers.{read_tp_test_copies, write_tp_test_copies}
use rdma_project.Rdma.Client.Calls as ClientCalls
use rdma_project.Rdma.Server.Calls as ServerCalls
use rdma_project.Rdma.System.{
  System, sends, receives, alone, client_moves, server_moves, meet, Reach, here, next, start,
}
use rdma_project.Rdma.Exclusive.Runs.{
  OneSided, read_throughput, write_throughput, client_calls, server_calls, client_calls-client_run,
  server_calls-server_run, server_waits_for_access,
}

abbrev clock : ℕ → ℕ
clock t = 10 * t

abbrev floats : Floating
floats = record { Double = ℕ; of_ℕ = λ n. n; divide = ◌/◌; multiply = ◌*◌; pow = ◌^◌ }

-- Two chunks of 1024 bytes and a rest.
abbrev n : ℕ
n = 2500

abbrev run : OneSided
run = read_throughput n

-- The client has made `c` calls and the server `s`.
abbrev state : (c s : ℕ) → (to_client : List ℕ) → System
state c s to_client = record {
  client = drop c (ClientCalls.read_run n);
  server = drop s (ServerCalls.read_run n);
  to_server = [];
  to_client = to_client;
}

reading : Reach (start (ClientCalls.read_run n) (ServerCalls.read_run n)) (state 2 3 [])
unfolding buffer_sizes
reading =
    next {t = state 1 3 (1 ∷ [])}
      (next {t = state 1 2 []}
        (next {t = state 1 1 []} (next here (meet refl refl refl refl))
          (server_moves (alone (randomize n) refl refl refl refl) refl))
        (server_moves (sends 0 1 refl refl refl) refl))
      (client_moves (receives 1 1 refl refl refl (omega arith)) refl)

reading_calls :
    Reach (start (client_calls clock floats run) (server_calls clock floats run)) (state 2 3 [])
reading_calls =
    rw
      (
        client_calls-client_run clock floats run (omega arith),
        server_calls-server_run clock floats run,
      )
      reading

server_waits_for_access_example : (state 3 3 []).server ≡ (state 2 3 []).server
unfolding buffer_sizes
server_waits_for_access_example =
    server_waits_for_access clock floats run (omega arith) reading_calls refl refl
      (client_moves (alone (read 0 0 1024) refl refl refl refl) refl)

-- The first test of the run, once its opening message has come.
abbrev size : ℕ
size = 1024

first_test :
    receive 1 ∷ (state 2 3 []).client
    ≡ calls_of (Client.read_tp_test clock floats size n empty) ++ drop 6 (ClientCalls.read_run n)
unfolding buffer_sizes
first_test =
    ap (λ ops. ops ++ drop 6 (ClientCalls.read_run n))
      (sym (
        calls_of-Emits (
          ClientCalls.read_tp_test-read_calls clock floats size n empty (omega arith)
            (omega arith))))

abbrev before : Memory
before = record { ours = replicate n 0; theirs = replicate n 7 }

abbrev three_reads : List Op
three_reads = read 0 0 1024 ∷ read 1024 1024 1024 ∷ read 2048 2048 452 ∷ []

read_tp_test_copies_example :
    ((applies three_reads before).ours ≡ before.theirs)
    × ((applies three_reads before).theirs ≡ before.theirs)
unfolding buffer_sizes
read_tp_test_copies_example =
    read_tp_test_copies clock floats size n (drop 6 (ClientCalls.read_run n)) (omega arith)
      (omega arith) (omega arith) {m = before} reading_calls first_test
      (length-replicate {A = ℕ} n 0) (length-replicate {A = ℕ} n 7)
      (go_on
        (go_on (go_on stay (client_moves (alone (read 0 0 1024) refl refl refl refl) refl) refl)
          (client_moves (alone (read 1024 1024 1024) refl refl refl refl) refl) refl)
        (client_moves (alone (read 2048 2048 452) refl refl refl refl) refl) refl)
      refl

-- The run of the write tests.
abbrev write_state : (c s : ℕ) → (to_client : List ℕ) → System
write_state c s to_client = record {
  client = drop c (ClientCalls.write_run n);
  server = drop s (ServerCalls.write_run n);
  to_server = [];
  to_client = to_client;
}

writing : Reach (start (ClientCalls.write_run n) (ServerCalls.write_run n)) (write_state 3 3 [])
unfolding buffer_sizes
writing =
    next {t = write_state 2 3 (1 ∷ [])}
      (next {t = write_state 2 2 []}
        (next {t = write_state 2 1 []}
          (next {t = write_state 1 0 []}
            (next here (client_moves (alone (randomize n) refl refl refl refl) refl))
            (meet refl refl refl refl))
          (server_moves (alone (clear n) refl refl refl refl) refl))
        (server_moves (sends 0 1 refl refl refl) refl))
      (client_moves (receives 1 1 refl refl refl (omega arith)) refl)

abbrev write_test : OneSided
write_test = write_throughput n

writing_calls :
    Reach
      (start (client_calls clock floats write_test) (server_calls clock floats write_test))
      (write_state 3 3 [])
writing_calls =
    rw
      (
        client_calls-client_run clock floats write_test (omega arith),
        server_calls-server_run clock floats write_test,
      )
      writing

first_write :
    receive 1 ∷ (write_state 3 3 []).client
    ≡ calls_of (Client.write_tp_test clock floats size n empty) ++ drop 7 (ClientCalls.write_run n)
unfolding buffer_sizes
first_write =
    ap (λ ops. ops ++ drop 7 (ClientCalls.write_run n))
      (sym (
        calls_of-Emits (
          ClientCalls.write_tp_test-write_calls clock floats size n empty (omega arith)
            (omega arith))))

abbrev three_writes : List Op
three_writes = write 0 0 1024 ∷ write 1024 1024 1024 ∷ write 2048 2048 452 ∷ []

write_tp_test_copies_example :
    ((applies three_writes before).theirs ≡ before.ours)
    × ((applies three_writes before).ours ≡ before.ours)
unfolding buffer_sizes
write_tp_test_copies_example =
    write_tp_test_copies clock floats size n (drop 7 (ClientCalls.write_run n)) (omega arith)
      (omega arith) (omega arith) {m = before} writing_calls first_write
      (length-replicate {A = ℕ} n 0) (length-replicate {A = ℕ} n 7)
      (go_on
        (go_on (go_on stay (client_moves (alone (write 0 0 1024) refl refl refl refl) refl) refl)
          (client_moves (alone (write 1024 1024 1024) refl refl refl refl) refl) refl)
        (client_moves (alone (write 2048 2048 452) refl refl refl refl) refl) refl)
      refl
