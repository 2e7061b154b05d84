-- ===== src/Legacy/Agreement.antt =====
-- `run_client` against `run_server`.
use rdma_project.Common.{ℕ, ◌+◌, ◌*◌, ◌<◌, ◌^◌, ◌≡◌, ◌≢◌, refl, List, [], ◌∷◌, arith, ◌⊎◌}
use rdma_project.Settings.{DataDirection, buffer_sizes}
use rdma_project.Measure.{Floating}
use rdma_project.Rdma.Verbs.{Op, Log, accept, receive, randomize}
use rdma_project.Rdma.Verbs.Emits
use rdma_project.Rdma.Verbs.Emits.{Emits, Any, emit_lem}
use rdma_project.Rdma.Client.Calls.{transfer_calls, read_at, write_at}
use rdma_project.Rdma.Agreement.{empty, calls_of, calls_of-Emits}
use rdma_project.Rdma.Quiet.{quiet_lem, comm-read, comm-write}
use rdma_project.Rdma.System.{System, Step, Reach, IsFinished, start}
use rdma_project.Rdma.System.Safety.Progress.{no_deadlock}
use rdma_project.Legacy.Ints.{mul}
use rdma_project.Legacy.Client.{run_client}
use rdma_project.Legacy.Client.Calls.{run_client-read_run, run_client-write_run}
use rdma_project.Legacy.Server.{
  run_server, serve_test_data, receive_test_data, wait_for_control_message,
}

-- The calls of `run_server`.
abbrev pub serve_run : DataDirection → ℕ → List Op
serve_run DataDirection.write n = accept ∷ receive 1 ∷ []
serve_run DataDirection.read n = randomize n ∷ accept ∷ receive 1 ∷ []
serve_run DataDirection.two_sided n = []

-- In every direction `run_server` returns, having made exactly these calls: for a two-sided test it
-- makes none.
pub run_server-serve_run :
    (tuple_size num_tuples : ℕ) (direction : DataDirection) (s : Log)
    → Emits s
        (serve_run direction (mul tuple_size num_tuples))
        Any
        (run_server tuple_size num_tuples direction s)
unfolding run_server serve_test_data receive_test_data wait_for_control_message
run_server-serve_run a b DataDirection.write s =
    Emits.bind s (accept ∷ []) (receive 1 ∷ []) _ (emit_lem _ s) λ _ t _. emit_lem _ t
run_server-serve_run a b DataDirection.read s =
    Emits.bind s (randomize (mul a b) ∷ []) (accept ∷ receive 1 ∷ []) _ (emit_lem _ s)
      λ _ t _. Emits.bind t (accept ∷ []) (receive 1 ∷ []) _ (emit_lem _ t) λ _ t _. emit_lem _ t
run_server-serve_run a b DataDirection.two_sided s = Emits.returns s tt tt

module _ (clock : ℕ → ℕ) (F : Floating) (tuple_size num_tuples : ℕ) where
  abbrev pub client_calls : DataDirection → List Op
  client_calls direction = calls_of (run_client clock F tuple_size num_tuples direction empty)

  abbrev pub server_calls : DataDirection → List Op
  server_calls direction = calls_of (run_server tuple_size num_tuples direction empty)

  pub server_calls_lem :
      (direction : DataDirection)
      → server_calls direction ≡ serve_run direction (mul tuple_size num_tuples)
  server_calls_lem direction =
      calls_of-Emits (run_server-serve_run tuple_size num_tuples direction empty)

  -- Reading, and whatever order the steps of the two ends are taken in: in every state that the run
  -- gets to, a step is possible unless both ends have made all their calls and no message is left
  -- over. The product of the sizes leaves 32 MiB to an `int`.
  read_no_deadlock :
      {t : System}
      → tuple_size * num_tuples + 2 ^ 25 < 2 ^ 31
      → Reach (start (client_calls DataDirection.read) (server_calls DataDirection.read)) t
      → IsFinished t ⊎ ((u : System) × Step t u)
  read_no_deadlock room r =
      let n = tuple_size * num_tuples in
      no_deadlock (client_calls DataDirection.read) (server_calls DataDirection.read)
        (rw
          (
            calls_of-Emits (run_client-read_run clock F tuple_size num_tuples empty room),
            server_calls_lem DataDirection.read,
            quiet_lem (λ size. transfer_calls read_at size n) buffer_sizes (comm-read n),
          )
          (omega arith, tt))
        r

  -- Writing, and whatever order the steps of the two ends are taken in: in every state that the run
  -- gets to, a step is possible unless both ends have made all their calls and no message is left
  -- over. The product of the sizes leaves 32 MiB to an `int`.
  write_no_deadlock :
      {t : System}
      → tuple_size * num_tuples + 2 ^ 25 < 2 ^ 31
      → Reach (start (client_calls DataDirection.write) (server_calls DataDirection.write)) t
      → IsFinished t ⊎ ((u : System) × Step t u)
  write_no_deadlock room r =
      let n = tuple_size * num_tuples in
      no_deadlock (client_calls DataDirection.write) (server_calls DataDirection.write)
        (rw
          (
            calls_of-Emits (run_client-write_run clock F tuple_size num_tuples empty room),
            server_calls_lem DataDirection.write,
            quiet_lem (λ size. transfer_calls write_at size n) buffer_sizes (comm-write n),
          )
          (omega arith, tt))
        r

  -- In both directions but the two-sided one, and whatever order the steps of the two ends are taken
  -- in: in every state that the run gets to, a step is possible unless both ends have made all their
  -- calls and no message is left over. The product of the sizes leaves 32 MiB to an `int`.
  pub one_sided_no_deadlock :
      (direction : DataDirection) {t : System}
      → direction ≢ DataDirection.two_sided
      → tuple_size * num_tuples + 2 ^ 25 < 2 ^ 31
      → Reach (start (client_calls direction) (server_calls direction)) t
      → IsFinished t ⊎ ((u : System) × Step t u)
  one_sided_no_deadlock DataDirection.read other room r = read_no_deadlock room r
  one_sided_no_deadlock DataDirection.write other room r = write_no_deadlock room r
  one_sided_no_deadlock DataDirection.two_sided other room r = absurd (other refl)
