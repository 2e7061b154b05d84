-- ===== src/Rdma/Agreement.antt =====
-- The throughput tests of client and server against one another.
use rdma_project.Common.{
  ℕ, zero, suc, ◌+◌, ◌-◌, ◌/◌, ◌%◌, ◌<◌, ◌≤◌, ◌^◌, ◌≡◌, ◌≢◌, refl, sym, ap, ◌∙◌, subst, List, [],
  ◌∷◌, ◌++◌, arith, replicate, All, Option, some, none, ◌⊎◌,
}
use rdma_project.Settings.{IsChunkSize, buffer_sizes-IsChunkSize, buffer_sizes}
use rdma_project.Measure.{Floating}
use rdma_project.Rdma.Verbs.{Op, Log, send, receive, randomize, clear}
use rdma_project.Rdma.Verbs.Emits.{Emits}
use rdma_project.Rdma.Client
use rdma_project.Rdma.Client.Calls as ClientCalls
use rdma_project.Rdma.Client.Calls.{
  chunk_calls, transfer_calls, calls_for, read_at, write_at, read_calls, write_calls,
}
use rdma_project.Rdma.Server
use rdma_project.Rdma.Server.Calls as ServerCalls
use rdma_project.Rdma.Server.Calls.{serve_calls}
use rdma_project.Rdma.System.{System, Reach, Step, IsFinished, start}
use rdma_project.Rdma.System.Dual.{comm, comm-append, Dual}
use rdma_project.Rdma.System.Safety.Progress.{no_deadlock, finishes}
use rdma_project.Rdma.Quiet.{Dual-comm_append, Dual-calls_for, comm-reads, comm-writes}

comm-read_calls : (size n : ℕ) → comm (read_calls size n) ≡ receive 1 ∷ send 0 1 ∷ []
comm-read_calls size n =
    rw
      (
        comm-append (transfer_calls read_at size n) (send 0 1 ∷ []),
        comm-append (chunk_calls read_at (n / size) size 0) _,
        comm-reads (n / size) size 0,
      )
      refl

comm-write_calls : (size n : ℕ) → comm (write_calls size n) ≡ receive 1 ∷ send 0 1 ∷ []
comm-write_calls size n =
    rw
      (
        comm-append (transfer_calls write_at size n) (send 0 1 ∷ []),
        comm-append (chunk_calls write_at (n / size) size 0) _,
        comm-writes (n / size) size 0,
      )
      refl

-- `q` full messages and one of at most that size.
Dual-messages :
    (q size off last r : ℕ)
    → r ≤ size
    → Dual
        (comm (replicate (suc q) (receive size)))
        (comm (chunk_calls send q size off ++ send last r ∷ []))
Dual-messages zero size off last r le = (le, tt)
Dual-messages (suc q) size off last r le =
    (omega arith, Dual-messages q size (off + size) last r le)

same_quotient : (n size : ℕ) → 0 < size → n % size ≢ 0 → n / size ≡ (n - 1) / size
same_quotient n size pos rest = grind arith

Dual-two_sided :
    (size n : ℕ)
    → 0 < size
    → n % size ≢ 0
    → Dual
        (comm (ClientCalls.two_sided_calls size (suc ((n - 1) / size))))
        (comm (ServerCalls.two_sided_calls size n))
Dual-two_sided size n pos rest =
    let messages =
      Dual-comm_append (replicate (suc (n / size)) (receive size)) (transfer_calls send size n)
        (send 0 1 ∷ []) (receive 1 ∷ [])
        (Dual-messages (n / size) size 0 (n - n % size) (n % size) (omega arith))
        (omega arith, tt) in
    subst
      (λ k.
        Dual (comm (ClientCalls.two_sided_calls size (suc k)))
          (comm (ServerCalls.two_sided_calls size n)))
      (same_quotient n size pos rest) (omega arith, messages)

-- A run by itself, from an empty log.
abbrev pub empty : Log
empty = record { ops = []; readings = 0 }

-- The calls that a test has made when it returns.
abbrev pub calls_of : {A : Type 0} → Option (A × Log) → List Op
calls_of none = []
calls_of (some (a, s)) = s.ops

pub calls_of-Emits :
    {A : Type 0} {P : A → Type 0} {ops : List Op} {r : Option (A × Log)}
    → Emits empty ops P r
    → calls_of r ≡ ops
calls_of-Emits e = ap calls_of e.result ∙ e.trace

-- The data do not end with a full chunk, for any chunk size of the tests.
abbrev pub Uneven : ℕ → Type 0
Uneven n = All (λ size. n % size ≢ 0) buffer_sizes

-- A chunk size that the tests can run with, and that leaves a rest.
abbrev Leaves : ℕ → ℕ → Type 0
Leaves n size = IsChunkSize size × (n % size ≢ 0)

All-and : (P Q : ℕ → Type 0) (xs : List ℕ) → All P xs → All Q xs → All (λ x. P x × Q x) xs
All-and P Q [] p q = tt
All-and P Q (x ∷ xs) p q = ((p.0, q.0), All-and P Q xs p.1 q.1)

module _ (n : ℕ) where
  pub Dual-read_run : Dual (comm (ClientCalls.read_run n)) (comm (ServerCalls.read_run n))
  Dual-read_run =
      Dual-comm_append (calls_for (λ size. read_calls size n) buffer_sizes)
        (calls_for (λ _. serve_calls (randomize n ∷ [])) buffer_sizes) (send 0 1 ∷ [])
        (receive 1 ∷ [])
        (Dual-calls_for IsChunkSize (λ size. read_calls size n)
          (λ _. serve_calls (randomize n ∷ [])) buffer_sizes
          (λ size v.
            subst (λ z. Dual z (comm (serve_calls (randomize n ∷ []))))
              (sym (comm-read_calls size n)) (omega arith, (omega arith, tt)))
          buffer_sizes-IsChunkSize)
        (omega arith, tt)

  pub Dual-write_run : Dual (comm (ClientCalls.write_run n)) (comm (ServerCalls.write_run n))
  Dual-write_run =
      Dual-comm_append (calls_for (λ size. write_calls size n ++ randomize n ∷ []) buffer_sizes)
        (calls_for (λ _. serve_calls (clear n ∷ [])) buffer_sizes) (send 0 1 ∷ []) (receive 1 ∷ [])
        (Dual-calls_for IsChunkSize (λ size. write_calls size n ++ randomize n ∷ [])
          (λ _. serve_calls (clear n ∷ [])) buffer_sizes
          (λ size v.
            subst (λ z. Dual z (comm (serve_calls (clear n ∷ []))))
              (sym (
                comm-append (write_calls size n) (randomize n ∷ [])
                ∙ ap (λ z. z ++ []) (comm-write_calls size n)))
              (omega arith, (omega arith, tt)))
          buffer_sizes-IsChunkSize)
        (omega arith, tt)

  Dual-two_sided_run :
      Uneven n → Dual (comm (ClientCalls.two_sided_run n)) (comm (ServerCalls.two_sided_run n))
  Dual-two_sided_run uneven =
      Dual-calls_for (Leaves n) (λ size. ClientCalls.two_sided_calls size (suc ((n - 1) / size)))
        (λ size. ServerCalls.two_sided_calls size n) buffer_sizes
        (λ size v. Dual-two_sided size n v.0.0 v.1)
        (All-and IsChunkSize (λ size. n % size ≢ 0) buffer_sizes buffer_sizes-IsChunkSize uneven)

  pub Dual-throughput_runs :
      Uneven n
      → Dual
          (comm
            (ClientCalls.read_run n ++ (ClientCalls.write_run n ++ ClientCalls.two_sided_run n)))
          (comm
            (ServerCalls.read_run n ++ (ServerCalls.write_run n ++ ServerCalls.two_sided_run n)))
  Dual-throughput_runs uneven =
      Dual-comm_append (ClientCalls.read_run n) (ServerCalls.read_run n) _ _ Dual-read_run (
        Dual-comm_append (ClientCalls.write_run n) (ServerCalls.write_run n)
          (ClientCalls.two_sided_run n) (ServerCalls.two_sided_run n) Dual-write_run
          (Dual-two_sided_run uneven))

module _ (clock : ℕ → ℕ) (F : Floating) (n : ℕ) where
  abbrev pub client_calls : List Op
  client_calls = calls_of (Client.run_throughput_tests clock F n empty)

  abbrev pub server_calls : List Op
  server_calls = calls_of (Server.run_throughput_tests n empty)

  -- All throughput tests of client and server, when `data_size` is above 0, leaves 2^31 to a `size_t`
  -- and is no multiple of a chunk size: each message that one end sends is one that the other
  -- receives, in the same order, and fits; and they connect at the same points.
  pub Dual-throughput :
      0 < n → n + 2 ^ 31 < 2 ^ 64 → Uneven n → Dual (comm client_calls) (comm server_calls)
  Dual-throughput some_data room uneven =
      rw
        (
          calls_of-Emits (ClientCalls.run_throughput_tests-runs clock F n empty some_data room),
          calls_of-Emits (ServerCalls.run_throughput_tests-server_runs n empty room),
        )
        (Dual-throughput_runs n uneven)

  -- Whatever order the steps of the two ends are taken in, for a `data_size` above 0 that leaves 2^31
  -- to a `size_t` and is no multiple of a chunk size: in every state that the throughput tests get
  -- to, a step is possible unless both ends have made all their calls and no message is left over.
  pub throughput_tests_no_deadlock :
      {t : System}
      → 0 < n
      → n + 2 ^ 31 < 2 ^ 64
      → Uneven n
      → Reach (start client_calls server_calls) t
      → IsFinished t ⊎ ((u : System) × Step t u)
  throughput_tests_no_deadlock some_data room uneven r =
      no_deadlock client_calls server_calls (Dual-throughput some_data room uneven) r

  -- From whatever state they have got to, under the same conditions on `data_size` (above 0, 2^31
  -- left to a `size_t`, no multiple of a chunk size), the throughput tests can still finish: both
  -- ends have made all their calls and no message is left over.
  pub throughput_tests_finish :
      {t : System}
      → 0 < n
      → n + 2 ^ 31 < 2 ^ 64
      → Uneven n
      → Reach (start client_calls server_calls) t
      → (u : System) × Reach (start client_calls server_calls) u × Reach t u × IsFinished u
  throughput_tests_finish some_data room uneven r =
      finishes client_calls server_calls (Dual-throughput some_data room uneven) r
