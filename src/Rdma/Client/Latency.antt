-- ===== src/Rdma/Client/Latency.antt =====
-- The calls that the latency tests of the client make, as lists.
use rdma_project.Common.{
  ℕ, zero, suc, ◌≡◌, ap, List, [], ◌∷◌, ◌++◌, append-nil, replicate, All, map,
}
use rdma_project.Settings.{latency_buffer_sizes, num_loops}
use rdma_project.Measure.{Floating, TestResult}
use rdma_project.Rdma.Verbs.{Op, Log, connect, send, read, write, randomize, emit}
use rdma_project.Rdma.Verbs.Emits
use rdma_project.Rdma.Verbs.Emits.{Emits, Any, emit_lem, now_lem}
use rdma_project.Rdma.Client.{
  connect_to_remote_buffer, send_control_message, repeat, read_latency_test, write_latency_test,
  two_sided_latency_test, run_read_latency_tests, run_write_latency_tests,
  run_two_sided_latency_tests, run_latency_tests,
}
use rdma_project.Rdma.Client.Calls.{calls_for, for_sizes-calls_for}

abbrev pub read_calls : ℕ → List Op
read_calls size = replicate num_loops (read 0 0 size)

abbrev pub write_calls : ℕ → List Op
write_calls size = randomize size ∷ replicate num_loops (write 0 0 size)

abbrev pub two_sided_calls : ℕ → List Op
two_sided_calls size = send 0 1 ∷ (replicate num_loops (send 0 size) ++ send 0 1 ∷ [])

-- The calls of the three runs.
abbrev pub read_run : List Op
read_run = connect ∷ (calls_for read_calls latency_buffer_sizes ++ send 0 1 ∷ [])

abbrev pub write_run : List Op
write_run = connect ∷ (calls_for write_calls latency_buffer_sizes ++ send 0 1 ∷ [])

abbrev pub two_sided_run : List Op
two_sided_run = connect ∷ calls_for two_sided_calls latency_buffer_sizes

repeat-replicate : (n : ℕ) (op : Op) (s : Log) → Emits s (replicate n op) Any (repeat n (emit op) s)
unfolding repeat
repeat-replicate zero op s = Emits.returns s tt tt
repeat-replicate (suc n) op s =
    Emits.bind s (op ∷ []) _ _ (emit_lem _ s) λ _ t _. repeat-replicate n op t

-- Every chunk size will do.
pub All-Any : (sizes : List ℕ) → All Any sizes
All-Any [] = tt
All-Any (size ∷ sizes) = (tt, All-Any sizes)

module _ (clock : ℕ → ℕ) (F : Floating) where
  abbrev pub InOrder : List (TestResult F.Double) → Type 0
  InOrder ls = map (λ l. l.buffer_size) ls ≡ latency_buffer_sizes

  pub read_latency_test-read_calls :
      (size : ℕ) (s : Log) → Emits s (read_calls size) Any (read_latency_test clock F size s)
  unfolding read_latency_test
  read_latency_test-read_calls size s = Emits.reshape (append-nil (read_calls size)) (
      Emits.bind s [] _ _ (now_lem clock s) λ _ t _.
        Emits.bind t (read_calls size) [] _ (repeat-replicate num_loops (read 0 0 size) t)
          λ _ t _. Emits.bind t [] [] _ (now_lem clock t) λ _ t _. Emits.returns t _ tt)

  pub write_latency_test-write_calls :
      (size : ℕ) (s : Log) → Emits s (write_calls size) Any (write_latency_test clock F size s)
  unfolding write_latency_test
  write_latency_test-write_calls size s = Emits.reshape (append-nil (write_calls size)) (
      Emits.bind s (randomize size ∷ []) _ _ (emit_lem _ s) λ _ t _.
        Emits.bind t [] _ _ (now_lem clock t) λ _ t _.
          Emits.bind t (replicate num_loops (write 0 0 size)) [] _
            (repeat-replicate num_loops (write 0 0 size) t)
            λ _ t _. Emits.bind t [] [] _ (now_lem clock t) λ _ t _. Emits.returns t _ tt)

  two_sided_latency_test-two_sided_calls :
      (size : ℕ) (s : Log)
      → Emits s (two_sided_calls size) Any (two_sided_latency_test clock F size s)
  unfolding two_sided_latency_test send_control_message
  two_sided_latency_test-two_sided_calls size s =
      Emits.bind s (send 0 1 ∷ []) _ _ (emit_lem _ s) λ _ t _.
        Emits.bind t [] _ _ (now_lem clock t) λ _ t _.
          Emits.bind t (replicate num_loops (send 0 size)) _ _
            (repeat-replicate num_loops (send 0 size) t)
            λ _ t _.
              Emits.bind t (send 0 1 ∷ []) [] _ (emit_lem _ t)
                λ _ t _. Emits.bind t [] [] _ (now_lem clock t) λ _ t _. Emits.returns t _ tt

  pub run_read_latency_tests-read_run :
      (s : Log) → Emits s read_run InOrder (run_read_latency_tests clock F s)
  unfolding run_read_latency_tests connect_to_remote_buffer send_control_message
  run_read_latency_tests-read_run s = Emits.bind s (connect ∷ []) _ _ (emit_lem _ s) λ _ t _.
      Emits.bind t (calls_for read_calls latency_buffer_sizes) _ _
        (for_sizes-calls_for clock F Any _ read_calls latency_buffer_sizes t
          (λ size t _. read_latency_test-read_calls size t) (All-Any latency_buffer_sizes))
        λ ls t e. Emits.bind t (send 0 1 ∷ []) [] _ (emit_lem _ t) λ _ t _. Emits.returns t ls e

  pub run_write_latency_tests-write_run :
      (s : Log) → Emits s write_run InOrder (run_write_latency_tests clock F s)
  unfolding run_write_latency_tests connect_to_remote_buffer send_control_message
  run_write_latency_tests-write_run s = Emits.bind s (connect ∷ []) _ _ (emit_lem _ s) λ _ t _.
      Emits.bind t (calls_for write_calls latency_buffer_sizes) _ _
        (for_sizes-calls_for clock F Any _ write_calls latency_buffer_sizes t
          (λ size t _. write_latency_test-write_calls size t) (All-Any latency_buffer_sizes))
        λ ls t e. Emits.bind t (send 0 1 ∷ []) [] _ (emit_lem _ t) λ _ t _. Emits.returns t ls e

  run_two_sided_latency_tests-two_sided_run :
      (s : Log) → Emits s two_sided_run InOrder (run_two_sided_latency_tests clock F s)
  unfolding run_two_sided_latency_tests connect_to_remote_buffer
  run_two_sided_latency_tests-two_sided_run s =
      Emits.bind s (connect ∷ []) _ _ (emit_lem _ s) λ _ t _.
        for_sizes-calls_for clock F Any _ two_sided_calls latency_buffer_sizes t
          (λ size t _. two_sided_latency_test-two_sided_calls size t) (All-Any latency_buffer_sizes)

  -- The client's `run_latency_tests` returns, having made the calls of its three runs one behind the
  -- other, with a result for each chunk size from each run, in order.
  pub run_latency_tests-runs :
      (s : Log)
      → Emits s
          (read_run ++ (write_run ++ two_sided_run))
          (λ (reads, writes, two_sided). InOrder reads × InOrder writes × InOrder two_sided)
          (run_latency_tests clock F s)
  unfolding run_latency_tests
  run_latency_tests-runs s =
      Emits.reshape (ap (λ z. read_run ++ (write_run ++ z)) (append-nil two_sided_run)) (
        Emits.bind s read_run _ _ (run_read_latency_tests-read_run s) λ a t p.
          Emits.bind t write_run _ _ (run_write_latency_tests-write_run t) λ b t q.
            Emits.bind t two_sided_run [] _ (run_two_sided_latency_tests-two_sided_run t)
              λ c t r. Emits.returns t (a, b, c) (p, q, r))
