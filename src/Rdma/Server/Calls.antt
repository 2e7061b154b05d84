-- ===== src/Rdma/Server/Calls.antt =====
-- The calls that each test of the server makes, as a list.
use rdma_project.Common.{
  last_index_lem, ℕ, zero, suc, ◌+◌, ◌-◌, ◌*◌, ◌/◌, ◌%◌, ◌<◌, ◌^◌, ◌≡◌, sym, ap, List, [], ◌∷◌,
  ◌++◌, true, arith, ltb, lt→ltb, le→ltb_false, All, append_assoc,
}
use rdma_project.Settings.{IsChunkSize, buffer_sizes-IsChunkSize, buffer_sizes}
use rdma_project.Rdma.Verbs.{Op, Log, Test, accept, send, receive, randomize, clear}
use rdma_project.Rdma.Verbs.Emits
use rdma_project.Rdma.Verbs.Emits.{Emits, Any, emit_lem}
use rdma_project.Rdma.Client.Calls.{chunk_calls, transfer_calls, calls_for}
use rdma_project.Rdma.Server.{
  send_control_message, wait_for_control_message, send_loop, two_sided_tp_test, for_sizes,
  run_read_tp_tests, run_write_tp_tests, run_two_sided_tp_tests, run_throughput_tests,
}

abbrev pub serve_calls : List Op → List Op
serve_calls prepare = prepare ++ (send 0 1 ∷ receive 1 ∷ [])

abbrev pub two_sided_calls : (size n : ℕ) → List Op
two_sided_calls size n = receive 1 ∷ (transfer_calls send size n ++ receive 1 ∷ [])

-- The calls of the three runs of throughput tests on `n` bytes.
abbrev pub read_run : ℕ → List Op
read_run n =
    accept ∷ (calls_for (λ _. serve_calls (randomize n ∷ [])) buffer_sizes ++ receive 1 ∷ [])

abbrev pub write_run : ℕ → List Op
write_run n = accept ∷ (calls_for (λ _. serve_calls (clear n ∷ [])) buffer_sizes ++ receive 1 ∷ [])

abbrev pub two_sided_run : ℕ → List Op
two_sided_run n = accept ∷ randomize n ∷ calls_for (λ size. two_sided_calls size n) buffer_sizes

pub for_sizes-calls_for :
    (P : ℕ → Type 0) (body : ℕ → Test (Unit {0})) (calls : ℕ → List Op) (sizes : List ℕ) (s : Log)
    → ((size : ℕ) (t : Log) → P size → Emits t (calls size) Any (body size t))
    → All P sizes
    → Emits s (calls_for calls sizes) Any (for_sizes body sizes s)
unfolding for_sizes
for_sizes-calls_for P body calls [] s each valid = Emits.returns s tt tt
for_sizes-calls_for P body calls (size ∷ sizes) s each valid =
    Emits.bind s (calls size) _ _ (each size s valid.0)
      λ _ t _. for_sizes-calls_for P body calls sizes t each valid.1

send_loop-chunk_calls :
    (f q size last off : ℕ) (s : Log)
    → 0 < size
    → last + size < 2 ^ 64
    → last ≡ off + q * size
    → q < f
    → Emits s (chunk_calls send q size off) Any (send_loop f size last off s)
unfolding send_loop
send_loop-chunk_calls zero q size last off s pos room e fuel = absurd (omega arith)
send_loop-chunk_calls (suc f) zero size last off s pos room e fuel =
    rw (le→ltb_false off last (omega arith)) (Emits.returns s tt tt)
send_loop-chunk_calls (suc f) (suc q) size last off s pos room e fuel =
    let more : ltb off last ≡ true = lt→ltb off last (omega arith) in
    let next : (off + size) % 2 ^ 64 ≡ off + size = omega arith in
    rw (more, next)
      (Emits.bind s (send off size ∷ []) _ _ (emit_lem _ s) λ _ t _.
        send_loop-chunk_calls f q size last (off + size) t pos room (omega arith) (omega arith))

-- For a chunk size above 0 that a `size_t` has room for behind the data: the server's
-- `two_sided_tp_test` returns, having waited for the client, sent the data in full chunks and one
-- chunk more, which may be empty, and waited again.
pub two_sided_tp_test-server_calls :
    (size n : ℕ) (s : Log)
    → 0 < size
    → n + size < 2 ^ 64
    → Emits s (two_sided_calls size n) Any (two_sided_tp_test size n s)
unfolding two_sided_tp_test wait_for_control_message
two_sided_tp_test-server_calls size n s pos room =
    let (whole, rounds, rest) = last_index_lem n size pos in
    Emits.reshape
      (ap (◌∷◌ (receive 1)) (sym (append_assoc (chunk_calls send (n / size) size 0) _ _)))
      (Emits.bind s (receive 1 ∷ []) _ _ (emit_lem _ s) λ _ t _.
        Emits.bind t (chunk_calls send (n / size) size 0) _ _
          (send_loop-chunk_calls _ (n / size) size (n - n % size) 0 t pos (omega arith) whole
            rounds)
          λ _ t _.
            Emits.bind t (send (n - n % size) (n % size) ∷ []) (receive 1 ∷ []) _ (emit_lem _ t)
              λ _ t _. emit_lem _ t)

pub run_read_tp_tests-calls_for :
    (n : ℕ) (s : Log) → Emits s (read_run n) Any (run_read_tp_tests n s)
unfolding run_read_tp_tests wait_for_control_message send_control_message
run_read_tp_tests-calls_for n s = Emits.bind s (accept ∷ []) _ _ (emit_lem _ s) λ _ t _.
    Emits.bind t (calls_for (λ _. serve_calls (randomize n ∷ [])) buffer_sizes) (receive 1 ∷ []) _
      (for_sizes-calls_for IsChunkSize _ (λ _. serve_calls (randomize n ∷ [])) buffer_sizes t
        (λ _ t _. Emits.bind t (randomize n ∷ []) _ _ (emit_lem _ t) λ _ t _.
          Emits.bind t (send 0 1 ∷ []) (receive 1 ∷ []) _ (emit_lem _ t) λ _ t _. emit_lem _ t)
        buffer_sizes-IsChunkSize)
      λ _ t _. emit_lem _ t

pub run_write_tp_tests-calls_for :
    (n : ℕ) (s : Log) → Emits s (write_run n) Any (run_write_tp_tests n s)
unfolding run_write_tp_tests wait_for_control_message send_control_message
run_write_tp_tests-calls_for n s = Emits.bind s (accept ∷ []) _ _ (emit_lem _ s) λ _ t _.
    Emits.bind t (calls_for (λ _. serve_calls (clear n ∷ [])) buffer_sizes) (receive 1 ∷ []) _
      (for_sizes-calls_for IsChunkSize _ (λ _. serve_calls (clear n ∷ [])) buffer_sizes t
        (λ _ t _. Emits.bind t (clear n ∷ []) _ _ (emit_lem _ t) λ _ t _.
          Emits.bind t (send 0 1 ∷ []) (receive 1 ∷ []) _ (emit_lem _ t) λ _ t _. emit_lem _ t)
        buffer_sizes-IsChunkSize)
      λ _ t _. emit_lem _ t

pub run_two_sided_tp_tests-calls_for :
    (n : ℕ) (s : Log)
    → n + 2 ^ 31 < 2 ^ 64
    → Emits s (two_sided_run n) Any (run_two_sided_tp_tests n s)
unfolding run_two_sided_tp_tests
run_two_sided_tp_tests-calls_for n s room = Emits.bind s (accept ∷ []) _ _ (emit_lem _ s) λ _ t _.
    Emits.bind t (randomize n ∷ []) _ _ (emit_lem _ t) λ _ t _.
      for_sizes-calls_for IsChunkSize _ (λ size. two_sided_calls size n) buffer_sizes t
        (λ size t v. two_sided_tp_test-server_calls size n t v.0 (omega arith))
        buffer_sizes-IsChunkSize

-- For data that leave 2^31 to a `size_t`: the server's `run_throughput_tests` returns, having made
-- the calls of its three runs one behind the other.
pub run_throughput_tests-server_runs :
    (n : ℕ) (s : Log)
    → n + 2 ^ 31 < 2 ^ 64
    → Emits s (read_run n ++ (write_run n ++ two_sided_run n)) Any (run_throughput_tests n s)
unfolding run_throughput_tests
run_throughput_tests-server_runs n s room =
    Emits.bind s (read_run n) _ _ (run_read_tp_tests-calls_for n s) λ _ t _.
      Emits.bind t (write_run n) (two_sided_run n) _ (run_write_tp_tests-calls_for n t)
        λ _ t _. run_two_sided_tp_tests-calls_for n t room
