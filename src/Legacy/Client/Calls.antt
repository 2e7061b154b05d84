-- ===== src/Legacy/Client/Calls.antt =====
-- The calls of `run_client`, as a list.
use rdma_project.Common.{
  last_index_lem, ℕ, zero, suc, ◌+◌, ◌-◌, ◌*◌, ◌/◌, ◌%◌, ◌<◌, ◌≤◌, ◌^◌, ◌≡◌, List, [], ◌∷◌, ◌++◌,
  true, arith, ltb, lt→ltb, le→ltb_false, All,
}
use rdma_project.Settings.{DataDirection, buffer_sizes}
use rdma_project.Measure.{Floating}
use rdma_project.Rdma.Verbs.{Op, Log, connect, send, randomize}
use rdma_project.Rdma.Verbs.Emits
use rdma_project.Rdma.Verbs.Emits.{Emits, Any, emit_lem, now_lem}
use rdma_project.Rdma.Client.Calls.{
  chunk_calls, transfer_calls, calls_for, read_at, write_at, for_sizes-calls_for, InOrder,
}
use rdma_project.Legacy.Ints.{mul, to_size_lem}
use rdma_project.Legacy.Client.{chunk_loop, run_read_test, run_write_test, run_tests, run_client}

-- The calls of `run_client` for one direction and `n` bytes.
abbrev pub read_run : ℕ → List Op
read_run n =
    connect ∷ (calls_for (λ size. transfer_calls read_at size n) buffer_sizes ++ send 0 1 ∷ [])

abbrev pub write_run : ℕ → List Op
write_run n =
    connect
    ∷ randomize n
    ∷ (calls_for (λ size. transfer_calls write_at size n) buffer_sizes ++ send 0 1 ∷ [])

-- A chunk size up to the largest, 32 MiB.
abbrev pub IsSmall : ℕ → Type 0
IsSmall size = (0 < size) × (size ≤ 2 ^ 25)

pub buffer_sizes-IsSmall : All IsSmall buffer_sizes
unfolding buffer_sizes
buffer_sizes-IsSmall = omega arith

chunk_loop-chunk_calls :
    (call : ℕ → ℕ → Op) (f q size rem off : ℕ) (s : Log)
    → 0 < size
    → rem + size < 2 ^ 31
    → rem ≡ off + q * size
    → q < f
    → Emits s (chunk_calls call q size off) Any (chunk_loop (λ o. call o size) f size rem off s)
unfolding chunk_loop
chunk_loop-chunk_calls call zero q size rem off s pos room e fuel = absurd (omega arith)
chunk_loop-chunk_calls call (suc f) zero size rem off s pos room e fuel =
    rw (to_size_lem off (omega arith), le→ltb_false off rem (omega arith)) (Emits.returns s tt tt)
chunk_loop-chunk_calls call (suc f) (suc q) size rem off s pos room e fuel =
    let more : ltb off rem ≡ true = lt→ltb off rem (omega arith) in
    let next : (off + size) % 2 ^ 32 ≡ off + size = omega arith in
    rw (to_size_lem off (omega arith), more, next)
      (Emits.bind s (call off size ∷ []) _ _ (emit_lem _ s) λ _ t _.
        chunk_loop-chunk_calls call f q size rem (off + size) t pos room (omega arith)
          (omega arith))

module _ (clock : ℕ → ℕ) (F : Floating) where
  run_read_test-transfer_calls :
      (size n : ℕ) (s : Log)
      → 0 < size
      → n + size < 2 ^ 31
      → Emits s (transfer_calls read_at size n) Any (run_read_test clock F size n s)
  unfolding run_read_test
  run_read_test-transfer_calls size n s pos room =
      let (whole, rounds, rest) = last_index_lem n size pos in
      let left : n - (n - n % size) ≡ n % size = omega arith in
      rw (to_size_lem n (omega arith), to_size_lem size (omega arith), left)
        (Emits.bind s [] _ _ (now_lem clock s) λ _ t _.
          Emits.bind t (chunk_calls read_at (n / size) size 0) _ _
            (chunk_loop-chunk_calls read_at _ (n / size) size (n - n % size) 0 t pos (omega arith)
              whole rounds)
            λ _ t _.
              Emits.bind t (read_at (n - n % size) (n % size) ∷ []) [] _ (emit_lem _ t)
                λ _ t _. Emits.bind t [] [] _ (now_lem clock t) λ _ t _. Emits.returns t _ tt)

  run_write_test-transfer_calls :
      (size n : ℕ) (s : Log)
      → 0 < size
      → n + size < 2 ^ 31
      → Emits s (transfer_calls write_at size n) Any (run_write_test clock F size n s)
  unfolding run_write_test
  run_write_test-transfer_calls size n s pos room =
      let (whole, rounds, rest) = last_index_lem n size pos in
      let left : n - (n - n % size) ≡ n % size = omega arith in
      rw (to_size_lem n (omega arith), to_size_lem size (omega arith), left)
        (Emits.bind s [] _ _ (now_lem clock s) λ _ t _.
          Emits.bind t (chunk_calls write_at (n / size) size 0) _ _
            (chunk_loop-chunk_calls write_at _ (n / size) size (n - n % size) 0 t pos (omega arith)
              whole rounds)
            λ _ t _.
              Emits.bind t (write_at (n - n % size) (n % size) ∷ []) [] _ (emit_lem _ t)
                λ _ t _. Emits.bind t [] [] _ (now_lem clock t) λ _ t _. Emits.returns t _ tt)

  -- For sizes whose product leaves 32 MiB to an `int`: reading, `run_client` returns a result for each
  -- chunk size, in order, having connected, read all the data once for each chunk size and told the
  -- server.
  pub run_client-read_run :
      (tuple_size num_tuples : ℕ) (s : Log)
      → tuple_size * num_tuples + 2 ^ 25 < 2 ^ 31
      → Emits s
          (read_run (tuple_size * num_tuples))
          (InOrder clock F)
          (run_client clock F tuple_size num_tuples DataDirection.read s)
  unfolding run_client run_tests
  run_client-read_run tuple_size num_tuples s room =
      let product : mul tuple_size num_tuples ≡ tuple_size * num_tuples = omega arith in
      let n = tuple_size * num_tuples in
      rw product (
        Emits.bind s (connect ∷ []) _ _ (emit_lem _ s) λ _ t _.
          Emits.bind t (calls_for (λ size. transfer_calls read_at size n) buffer_sizes) _ _
            (for_sizes-calls_for clock F IsSmall _ (λ size. transfer_calls read_at size n)
              buffer_sizes t (λ size t v. run_read_test-transfer_calls size n t v.0 (omega arith))
              buffer_sizes-IsSmall)
            λ ls t e.
              Emits.bind t (send 0 1 ∷ []) [] _ (emit_lem _ t) λ _ t _. Emits.returns t ls e)

  -- For sizes whose product leaves 32 MiB to an `int`: writing, `run_client` returns a result for each
  -- chunk size, in order, having connected, made random data, written all of them once for each chunk
  -- size and told the server.
  pub run_client-write_run :
      (tuple_size num_tuples : ℕ) (s : Log)
      → tuple_size * num_tuples + 2 ^ 25 < 2 ^ 31
      → Emits s
          (write_run (tuple_size * num_tuples))
          (InOrder clock F)
          (run_client clock F tuple_size num_tuples DataDirection.write s)
  unfolding run_client run_tests
  run_client-write_run tuple_size num_tuples s room =
      let product : mul tuple_size num_tuples ≡ tuple_size * num_tuples = omega arith in
      let n = tuple_size * num_tuples in
      rw product (
        Emits.bind s (connect ∷ []) _ _ (emit_lem _ s) λ _ t _.
          Emits.bind t
            (randomize n ∷ calls_for (λ size. transfer_calls write_at size n) buffer_sizes) _ _
            (Emits.bind t (randomize n ∷ []) _ _ (emit_lem _ t) λ _ t _.
              for_sizes-calls_for clock F IsSmall _ (λ size. transfer_calls write_at size n)
                buffer_sizes t
                (λ size t v. run_write_test-transfer_calls size n t v.0 (omega arith))
                buffer_sizes-IsSmall)
            λ ls t e.
              Emits.bind t (send 0 1 ∷ []) [] _ (emit_lem _ t) λ _ t _. Emits.returns t ls e)
