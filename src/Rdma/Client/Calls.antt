-- ===== src/Rdma/Client/Calls.antt =====
-- The calls that each test of the client makes, as a list.
use rdma_project.Common.{
  last_index_lem, ℕ, suc, ◌+◌, ◌-◌, ◌*◌, ◌/◌, ◌%◌, ◌<◌, ◌^◌, ◌≡◌, refl, sym, ap, List, [], ◌∷◌,
  ◌++◌, arith, append-nil, replicate, All, map, append_assoc,
}
use rdma_project.Settings.{IsChunkSize, buffer_sizes-IsChunkSize, buffer_sizes}
use rdma_project.Measure.{Floating, TestResult}
use rdma_project.Rdma.Verbs.{Op, Log, Test, connect, send, receive, randomize}
use rdma_project.Rdma.Verbs.Emits
use rdma_project.Rdma.Verbs.Emits.{Emits, Any, emit_lem, now_lem}
use rdma_project.Rdma.Client.{
  connect_to_remote_buffer, send_control_message, wait_for_control_message, read_tp_test,
  write_tp_test, two_sided_tp_test, for_sizes, run_read_tp_tests, run_write_tp_tests,
  run_two_sided_tp_tests, run_throughput_tests,
}
pub use rdma_project.Rdma.Client.Plan.{
  chunk_calls, transfer_calls, read_at, write_at, read_calls, write_calls, two_sided_calls,
  calls_for, read_run, write_run, two_sided_run,
}
use rdma_project.Rdma.Client.Plan.{
  read_loop-chunk_calls, write_loop-chunk_calls, receive_loop-replicate,
}

module _ (clock : ℕ → ℕ) (F : Floating) where
  -- For a chunk size above 0 that a `size_t` has room for behind the data: `read_tp_test` returns,
  -- having waited for the server, read the full chunks from offset 0 on and then the rest of the
  -- data, each to the offset that it comes from, and told the server.
  pub read_tp_test-read_calls :
      (size n : ℕ) (s : Log)
      → 0 < size
      → n + size < 2 ^ 64
      → Emits s (read_calls size n) Any (read_tp_test clock F size n s)
  unfolding read_tp_test wait_for_control_message send_control_message
  read_tp_test-read_calls size n s pos room =
      let (whole, rounds, rest) = last_index_lem n size pos in
      Emits.reshape
        (ap (◌∷◌ (receive 1)) (sym (append_assoc (chunk_calls read_at (n / size) size 0) _ _)))
        (Emits.bind s (receive 1 ∷ []) _ _ (emit_lem _ s) λ _ t _.
          Emits.bind t [] _ _ (now_lem clock t) λ _ t _.
            Emits.bind t (chunk_calls read_at (n / size) size 0) _ _
              (read_loop-chunk_calls _ (n / size) size (n - n % size) 0 t pos (omega arith) whole
                rounds)
              λ _ t _.
                Emits.bind t (read_at (n - n % size) (n % size) ∷ []) _ _ (emit_lem _ t) λ _ t _.
                  Emits.bind t (send 0 1 ∷ []) _ _ (emit_lem _ t)
                    λ _ t _. Emits.bind t [] _ _ (now_lem clock t) λ _ t _. Emits.returns t _ tt)

  -- For a chunk size above 0 that a `size_t` has room for behind the data: `write_tp_test` returns,
  -- having waited for the server, written the full chunks from offset 0 on and then the rest of the
  -- data, each to the offset that it comes from, and told the server.
  pub write_tp_test-write_calls :
      (size n : ℕ) (s : Log)
      → 0 < size
      → n + size < 2 ^ 64
      → Emits s (write_calls size n) Any (write_tp_test clock F size n s)
  unfolding write_tp_test wait_for_control_message send_control_message
  write_tp_test-write_calls size n s pos room =
      let (whole, rounds, rest) = last_index_lem n size pos in
      Emits.reshape
        (ap (◌∷◌ (receive 1)) (sym (append_assoc (chunk_calls write_at (n / size) size 0) _ _)))
        (Emits.bind s (receive 1 ∷ []) _ _ (emit_lem _ s) λ _ t _.
          Emits.bind t [] _ _ (now_lem clock t) λ _ t _.
            Emits.bind t (chunk_calls write_at (n / size) size 0) _ _
              (write_loop-chunk_calls _ (n / size) size (n - n % size) 0 t pos (omega arith) whole
                rounds)
              λ _ t _.
                Emits.bind t (write_at (n - n % size) (n % size) ∷ []) _ _ (emit_lem _ t) λ _ t _.
                  Emits.bind t (send 0 1 ∷ []) _ _ (emit_lem _ t)
                    λ _ t _. Emits.bind t [] _ _ (now_lem clock t) λ _ t _. Emits.returns t _ tt)

  -- For data that are not empty and a chunk size above 0 that a `size_t` has room for behind them:
  -- `two_sided_tp_test` returns, having told the server that it is ready, received as many messages
  -- as there are chunks, the last of which may be short, and told the server again.
  pub two_sided_tp_test-two_sided_calls :
      (size n : ℕ) (s : Log)
      → 0 < size
      → 0 < n
      → n + size < 2 ^ 64
      → Emits s
          (two_sided_calls size (suc ((n - 1) / size)))
          Any
          (two_sided_tp_test clock F size n s)
  unfolding two_sided_tp_test send_control_message
  two_sided_tp_test-two_sided_calls size n s pos some_data room = Emits.reshape refl (
      Emits.bind s (send 0 1 ∷ []) _ _ (emit_lem _ s) λ _ t _.
        Emits.bind t [] _ _ (now_lem clock t) λ _ t _.
          Emits.bind t (replicate (suc ((n - 1) / size)) (receive size)) _ _
            (receive_loop-replicate (suc n) ((n - 1) / size) size n (n - (n - 1) / size * size) 0 t
              (grind arith) (grind arith) room (grind arith) (grind arith))
            λ _ t _.
              Emits.bind t (send 0 1 ∷ []) _ _ (emit_lem _ t)
                λ _ t _. Emits.bind t [] _ _ (now_lem clock t) λ _ t _. Emits.returns t _ tt)

  -- A run over chunk sizes makes the calls of each test in turn, and has one result for each.
  pub for_sizes-calls_for :
      (P : ℕ → Type 0) (test : ℕ → Test F.Double) (calls : ℕ → List Op) (sizes : List ℕ) (s : Log)
      → ((size : ℕ) (t : Log) → P size → Emits t (calls size) Any (test size t))
      → All P sizes
      → Emits s
          (calls_for calls sizes)
          (λ ls. map (λ l. l.buffer_size) ls ≡ sizes)
          (for_sizes clock F test sizes s)
  unfolding for_sizes
  for_sizes-calls_for P test calls [] s each valid = Emits.returns s [] refl
  for_sizes-calls_for P test calls (size ∷ sizes) s each valid =
      Emits.reshape (ap (λ z. calls size ++ z) (append-nil _)) (
        Emits.bind s (calls size) _ _ (each size s valid.0) λ v t _.
          Emits.bind t (calls_for calls sizes) _ _
            (for_sizes-calls_for P test calls sizes t each valid.1)
            λ ls t e. Emits.returns t _ (ap (◌∷◌ size) e))

  abbrev pub InOrder : List (TestResult F.Double) → Type 0
  InOrder ls = map (λ l. l.buffer_size) ls ≡ buffer_sizes

  pub run_read_tp_tests-calls_for :
      (n : ℕ) (s : Log)
      → n + 2 ^ 31 < 2 ^ 64
      → Emits s (read_run n) InOrder (run_read_tp_tests clock F n s)
  unfolding run_read_tp_tests connect_to_remote_buffer send_control_message
  run_read_tp_tests-calls_for n s room = Emits.bind s (connect ∷ []) _ _ (emit_lem _ s) λ _ t _.
      Emits.bind t (calls_for (λ size. read_calls size n) buffer_sizes) _ _
        (for_sizes-calls_for IsChunkSize _ (λ size. read_calls size n) buffer_sizes t
          (λ size t v. read_tp_test-read_calls size n t v.0 (omega arith)) buffer_sizes-IsChunkSize)
        λ ls t e. Emits.bind t (send 0 1 ∷ []) [] _ (emit_lem _ t) λ _ t _. Emits.returns t _ e

  pub run_write_tp_tests-calls_for :
      (n : ℕ) (s : Log)
      → n + 2 ^ 31 < 2 ^ 64
      → Emits s (write_run n) InOrder (run_write_tp_tests clock F n s)
  unfolding run_write_tp_tests connect_to_remote_buffer send_control_message
  run_write_tp_tests-calls_for n s room =
      Emits.bind s (randomize n ∷ []) _ _ (emit_lem _ s) λ _ t _.
        Emits.bind t (connect ∷ []) _ _ (emit_lem _ t) λ _ t _.
          Emits.bind t (calls_for (λ size. write_calls size n ++ randomize n ∷ []) buffer_sizes) _ _
            (for_sizes-calls_for IsChunkSize _ (λ size. write_calls size n ++ randomize n ∷ [])
              buffer_sizes t
              (λ size t v.
                Emits.bind t (write_calls size n) _ _
                  (write_tp_test-write_calls size n t v.0 (omega arith))
                  λ x t _.
                    Emits.bind t (randomize n ∷ []) [] _ (emit_lem _ t)
                      λ _ t _. Emits.returns t x tt)
              buffer_sizes-IsChunkSize)
            λ ls t e. Emits.bind t (send 0 1 ∷ []) [] _ (emit_lem _ t) λ _ t _. Emits.returns t _ e

  pub run_two_sided_tp_tests-calls_for :
      (n : ℕ) (s : Log)
      → 0 < n
      → n + 2 ^ 31 < 2 ^ 64
      → Emits s (two_sided_run n) InOrder (run_two_sided_tp_tests clock F n s)
  unfolding run_two_sided_tp_tests connect_to_remote_buffer
  run_two_sided_tp_tests-calls_for n s pos room =
      Emits.bind s (connect ∷ []) _ _ (emit_lem _ s) λ _ t _.
        for_sizes-calls_for IsChunkSize _ (λ size. two_sided_calls size (suc ((n - 1) / size)))
          buffer_sizes t
          (λ size t v. two_sided_tp_test-two_sided_calls size n t v.0 pos (omega arith))
          buffer_sizes-IsChunkSize

  -- For data that are not empty and leave 2^31 to a `size_t`: the client's `run_throughput_tests`
  -- returns, having made the calls of its three runs one behind the other, with a result for each
  -- chunk size from each run, in order.
  pub run_throughput_tests-runs :
      (n : ℕ) (s : Log)
      → 0 < n
      → n + 2 ^ 31 < 2 ^ 64
      → Emits s
          (read_run n ++ (write_run n ++ two_sided_run n))
          (λ (reads, writes, two_sided). InOrder reads × InOrder writes × InOrder two_sided)
          (run_throughput_tests clock F n s)
  unfolding run_throughput_tests
  run_throughput_tests-runs n s some_data room =
      Emits.reshape (ap (λ z. read_run n ++ (write_run n ++ z)) (append-nil (two_sided_run n))) (
        Emits.bind s (read_run n) _ _ (run_read_tp_tests-calls_for n s room) λ a t p.
          Emits.bind t (write_run n) _ _ (run_write_tp_tests-calls_for n t room) λ b t q.
            Emits.bind t (two_sided_run n) [] _
              (run_two_sided_tp_tests-calls_for n t some_data room)
              λ c t r. Emits.returns t (a, b, c) (p, q, r))
