-- ===== src/Legacy/TwoSided.antt =====
-- The two-sided direction of `run_client` and `run_server`.
use rdma_project.Common.{
  ℕ, zero, suc, ◌+◌, ◌-◌, ◌*◌, ◌/◌, ◌<◌, ◌≤◌, ◌^◌, ◌%◌, ◌≡◌, refl, ap, ◌∙◌, subst, List, [], ◌∷◌,
  ◌++◌, arith, true, false, lt→ltb, le→ltb_false, replicate,
}
use rdma_project.Settings.{DataDirection, buffer_sizes}
use rdma_project.Measure.{Floating}
use rdma_project.Rdma.Verbs.{Op, Log, connect, send, receive}
use rdma_project.Rdma.Verbs.Emits
use rdma_project.Rdma.Verbs.Emits.{Emits, Any, emit_lem, now_lem}
use rdma_project.Rdma.Client.Calls.{calls_for, two_sided_calls, for_sizes-calls_for, InOrder}
use rdma_project.Rdma.Agreement.{empty, calls_of-Emits}
use rdma_project.Rdma.System.{
  System, Step, client_moves, server_moves, meet, meet_swapped, sends, receives, alone, Reach, here,
  next, IsFinished, start, is_local,
}
use rdma_project.Legacy.Ints.{mul, less, less-ltb}
use rdma_project.Legacy.Client.{message_loop, run_twosided_test, run_client, run_tests}
use rdma_project.Legacy.Client.Calls.{IsSmall, buffer_sizes-IsSmall}
use rdma_project.Legacy.Agreement.{client_calls, server_calls, server_calls_lem}

-- The calls of `run_client` for `n` bytes.
abbrev pub two_sided_run : ℕ → List Op
two_sided_run n =
    connect
    ∷ (calls_for (λ size. two_sided_calls size (suc ((n - 1) / size))) buffer_sizes
        ++ send 0 1 ∷ [])

message_loop-replicate :
    (f q size n r x : ℕ) (s : Log)
    → 0 < r
    → r ≤ size
    → n + size < 2 ^ 31
    → n ≡ x + q * size + r
    → suc q < f
    → Emits s (replicate (suc q) (receive size)) Any (message_loop f size n x s)
unfolding message_loop
message_loop-replicate zero q size n r x s pos le room e fuel = absurd (omega arith)
message_loop-replicate (suc zero) q size n r x s pos le room e fuel = absurd (omega arith)
message_loop-replicate (suc (suc f)) zero size n r x s pos le room e fuel =
    let more : less x n ≡ true =
      less-ltb x n (omega arith) (omega arith) ∙ lt→ltb x n (omega arith) in
    let next : (x + size) % 2 ^ 32 ≡ x + size = omega arith in
    let last : less (x + size) n ≡ false =
      less-ltb (x + size) n (omega arith) (omega arith) ∙ le→ltb_false (x + size) n (omega arith) in
    rw (more, next, last)
      (Emits.bind s (receive size ∷ []) _ _ (emit_lem _ s) λ _ t _. Emits.returns t tt tt)
message_loop-replicate (suc (suc f)) (suc q) size n r x s pos le room e fuel =
    let more : less x n ≡ true =
      less-ltb x n (omega arith) (omega arith) ∙ lt→ltb x n (omega arith) in
    let next : (x + size) % 2 ^ 32 ≡ x + size = omega arith in
    rw (more, next)
      (Emits.bind s (receive size ∷ []) _ _ (emit_lem _ s) λ _ t _.
        message_loop-replicate (suc f) q size n r (x + size) t pos le room (omega arith)
          (omega arith))

-- An end that begins with `connect` waits for an `accept`.
connect-stuck : (p : List Op) {t : System} → ¬ Step (start (connect ∷ p) []) t
connect-stuck p (client_moves (sends o n e _ _) _) = cc
connect-stuck p (client_moves (receives c n e _ _ _) _) = cc
connect-stuck p (client_moves (alone op l e _ _) _) =
    let same : connect ≡ op = cc in let local : is_local connect ≡ true = ap is_local same ∙ l in cc
connect-stuck p (server_moves (sends o n e _ _) _) = cc
connect-stuck p (server_moves (receives c n e _ _ _) _) = cc
connect-stuck p (server_moves (alone op l e _ _) _) = cc
connect-stuck p (meet ec es _ _) = cc
connect-stuck p (meet_swapped ec es _ _) = cc

Reach-stuck :
    (p : List Op) {t : System} → Reach (start (connect ∷ p) []) t → t ≡ start (connect ∷ p) []
Reach-stuck p here = refl
Reach-stuck p (next {t} {u} r st) =
    absurd (connect-stuck p (subst (λ z. Step z u) (Reach-stuck p r) st))

module _ (clock : ℕ → ℕ) (F : Floating) where
  run_twosided_test-two_sided_calls :
      (size n : ℕ) (s : Log)
      → 0 < size
      → 0 < n
      → n + size < 2 ^ 31
      → Emits s
          (two_sided_calls size (suc ((n - 1) / size)))
          Any
          (run_twosided_test clock F size n s)
  unfolding run_twosided_test
  run_twosided_test-two_sided_calls size n s pos some_data room = Emits.reshape refl (
      Emits.bind s (send 0 1 ∷ []) _ _ (emit_lem _ s) λ _ t _.
        Emits.bind t [] _ _ (now_lem clock t) λ _ t _.
          Emits.bind t (replicate (suc ((n - 1) / size)) (receive size)) _ _
            (message_loop-replicate (suc n) ((n - 1) / size) size n (n - (n - 1) / size * size) 0 t
              (grind arith) (grind arith) room (grind arith) (grind arith))
            λ _ t _. Emits.bind t [] _ _ (now_lem clock t) λ _ t _.
              Emits.bind t (send 0 1 ∷ []) [] _ (emit_lem _ t) λ _ t _. Emits.returns t _ tt)

  run_client-two_sided_run :
      (tuple_size num_tuples : ℕ) (s : Log)
      → 0 < tuple_size * num_tuples
      → tuple_size * num_tuples + 2 ^ 25 < 2 ^ 31
      → Emits s
          (two_sided_run (tuple_size * num_tuples))
          (InOrder clock F)
          (run_client clock F tuple_size num_tuples DataDirection.two_sided s)
  unfolding run_client run_tests
  run_client-two_sided_run tuple_size num_tuples s some_data room =
      let product : mul tuple_size num_tuples ≡ tuple_size * num_tuples = omega arith in
      let n = tuple_size * num_tuples in
      rw product (
        Emits.bind s (connect ∷ []) _ _ (emit_lem _ s) λ _ t _.
          Emits.bind t
            (calls_for (λ size. two_sided_calls size (suc ((n - 1) / size))) buffer_sizes) _ _
            (for_sizes-calls_for clock F IsSmall _
              (λ size. two_sided_calls size (suc ((n - 1) / size))) buffer_sizes t
              (λ size t v. run_twosided_test-two_sided_calls size n t v.0 some_data (omega arith))
              buffer_sizes-IsSmall)
            λ ls t e.
              Emits.bind t (send 0 1 ∷ []) [] _ (emit_lem _ t) λ _ t _. Emits.returns t ls e)

  -- The two-sided test never runs: its branch of `run_server` is for a direction that is not
  -- two-sided, so that the server returns at once and the client waits for a connection. For data that
  -- are not empty and leave 32 MiB to an `int`, no state that they get to is finished.
  pub two_sided_never_runs :
      (tuple_size num_tuples : ℕ) {t : System}
      → 0 < tuple_size * num_tuples
      → tuple_size * num_tuples + 2 ^ 25 < 2 ^ 31
      → Reach
          (start
            (client_calls clock F tuple_size num_tuples DataDirection.two_sided)
            (server_calls clock F tuple_size num_tuples DataDirection.two_sided))
          t
      → ¬ IsFinished t
  two_sided_never_runs tuple_size num_tuples {t} some_data room r f =
      let n = tuple_size * num_tuples in
      let ours =
        calls_of-Emits (run_client-two_sided_run tuple_size num_tuples empty some_data room) in
      let theirs = server_calls_lem clock F tuple_size num_tuples DataDirection.two_sided in
      let from : Reach (start (two_sided_run n) []) t = rw (ours, theirs) at r in
      cc (ap (λ z. z.client) (Reach-stuck _ from), f.client_done)
