-- ===== src/Rdma/Exclusive/Transfers.antt =====
-- What the tests of RdmaClient.cpp that read or write the server's buffer have done to both buffers
-- when they are over, whatever order the steps of the two ends are taken in.
use rdma_project.Common.{
  ℕ, ◌+◌, ◌/◌, ◌%◌, ◌-◌, ◌<◌, ◌^◌, ◌≡◌, refl, sym, ap, ◌∙◌, subst, List, [], ◌∷◌, ◌++◌, All,
  All-weaken, length, append_assoc, arith,
}
use mathlib.Core.List.{tail-eq_of_cons-eq}
use rdma_project.Measure.{Floating}
use rdma_project.Rdma.Verbs.{Op, send, receive, read, write}
use rdma_project.Rdma.Client
use rdma_project.Rdma.Client.Calls.{
  transfer_calls, chunk_calls, read_at, write_at, read_tp_test-read_calls,
  write_tp_test-write_calls,
}
use rdma_project.Rdma.Client.Plan.{All-transfer_calls}
use rdma_project.Rdma.Agreement.{empty, calls_of, calls_of-Emits}
use rdma_project.Rdma.System.{System, Reach, start}
use rdma_project.Rdma.Memory.{
  after_reads, after_writes, read_tp_test-after_reads, write_tp_test-after_writes,
}
use rdma_project.Rdma.Exclusive.{Polite}
use rdma_project.Rdma.Exclusive.Waits.{Orderly}
use rdma_project.Rdma.Exclusive.Runs.{
  read_throughput, write_throughput, client_calls, server_calls, run-Orderly,
}
use rdma_project.Rdma.Exclusive.Copies.{
  Memory, Trace, IsRead, IsWrite, applies, applies-reads, applies-writes,
}
use rdma_project.Rdma.Exclusive.Working.{IsAccess, all_made, heard_lem}

-- From calls that lead to a message of the client, to just before this message.
transfer_lem :
    (call : ℕ → ℕ → Op) (size n : ℕ) (rest : List Op) {t u : System} {m k : Memory}
    → Orderly t
    → All IsAccess (transfer_calls call size n)
    → t.client ≡ transfer_calls call size n ++ send 0 1 ∷ rest
    → Trace t m u k
    → u.client ≡ send 0 1 ∷ rest
    → k ≡ applies (transfer_calls call size n) m
transfer_lem call size n rest {t} {u} {m} d accesses calls path last =
    let heard =
      heard_lem d.heard (chunk_calls call (n / size) size 0) (call (n - n % size) (n % size))
        (send 0 1 ∷ rest) accesses (subst (Polite d.heard) calls d.polite) in
    all_made t m (transfer_calls call size n) (send 0 1 ∷ rest) d heard calls accesses tt path last

read-IsAccess : (op : Op) → IsRead op → IsAccess op
read-IsAccess (read l r n) h = refl
read-IsAccess (_) h = absurd h

write-IsAccess : (op : Op) → IsWrite op → IsAccess op
write-IsAccess (write l r n) h = refl
write-IsAccess (_) h = absurd h

module _ (clock : ℕ → ℕ) (F : Floating) (size n : ℕ) (rest : List Op) (pos : 0 < size)
    (small : size < 2 ^ 31) (room : n + 2 ^ 31 < 2 ^ 64) where
  -- What is left when the opening message of a test has come.
  behind_opening :
      (test accesses p : List Op)
      → test ≡ receive 1 ∷ (accesses ++ send 0 1 ∷ [])
      → receive 1 ∷ p ≡ test ++ rest
      → p ≡ accesses ++ send 0 1 ∷ rest
  behind_opening test accesses p e calls =
      tail-eq_of_cons-eq (calls ∙ ap (λ ops. ops ++ rest) e)
      ∙ append_assoc accesses (send 0 1 ∷ []) rest

  read_calls_lem :
      calls_of (Client.read_tp_test clock F size n empty)
      ≡ receive 1 ∷ (transfer_calls read_at size n ++ send 0 1 ∷ [])
  read_calls_lem =
      calls_of-Emits (read_tp_test-read_calls clock F size n empty pos (omega (arith, room)))

  write_calls_lem :
      calls_of (Client.write_tp_test clock F size n empty)
      ≡ receive 1 ∷ (transfer_calls write_at size n ++ send 0 1 ∷ [])
  write_calls_lem =
      calls_of-Emits (write_tp_test-write_calls clock F size n empty pos (omega (arith, room)))

  reads_all :
      (remote buffer : List ℕ)
      → length buffer ≡ n
      → length remote ≡ n
      → after_reads (transfer_calls read_at size n ++ send 0 1 ∷ []) remote buffer ≡ remote
  reads_all remote buffer e same =
      ap (λ ops. after_reads ops remote buffer) (sym read_calls_lem)
      ∙ subst
          (λ j.
            after_reads (calls_of (Client.read_tp_test clock F size j empty)) remote buffer
            ≡ remote)
          e
          (read_tp_test-after_reads clock F size remote buffer pos (omega (arith, e, room))
            (same ∙ sym e))

  writes_all :
      (bytes buffer : List ℕ)
      → length buffer ≡ n
      → length bytes ≡ n
      → after_writes (transfer_calls write_at size n ++ send 0 1 ∷ []) bytes buffer ≡ bytes
  writes_all bytes buffer e same =
      ap (λ ops. after_writes ops bytes buffer) (sym write_calls_lem)
      ∙ subst
          (λ j.
            after_writes (calls_of (Client.write_tp_test clock F size j empty)) bytes buffer
            ≡ bytes)
          e
          (write_tp_test-after_writes clock F size bytes buffer pos (omega (arith, e, room))
            (same ∙ sym e))

  -- In a run of the read tests, with chunks of 1 to less than 2^31 bytes and data that leave 2^31 to a
  -- `size_t`: let the client have received the message that opens a test, and both buffers have the
  -- size of the data. Whatever the two ends do until the client has just the last message of the test
  -- to send, then it holds what the server's buffer held, and the server's buffer is as it was.
  pub read_tp_test_copies :
      {t u : System} {m k : Memory}
      → Reach
          (start
            (client_calls clock F (read_throughput n))
            (server_calls clock F (read_throughput n)))
          t
      → receive 1 ∷ t.client ≡ calls_of (Client.read_tp_test clock F size n empty) ++ rest
      → length m.ours ≡ n
      → length m.theirs ≡ n
      → Trace t m u k
      → u.client ≡ send 0 1 ∷ rest
      → (k.ours ≡ m.theirs) × (k.theirs ≡ m.theirs)
  read_tp_test_copies {t} {u} {m} {k} r calls ours theirs path last =
      let reads = All-transfer_calls IsRead read_at size n pos (λ o c le. tt) in
      let accesses =
        All-weaken IsRead IsAccess (transfer_calls read_at size n) read-IsAccess reads in
      let memory =
        transfer_lem read_at size n rest (run-Orderly clock F (read_throughput n) room r) accesses
          (behind_opening _ (transfer_calls read_at size n) t.client read_calls_lem calls) path last
        ∙ applies-reads (transfer_calls read_at size n) m reads in
      (ap (λ x. x.ours) memory ∙ reads_all m.theirs m.ours ours theirs, ap (λ x. x.theirs) memory)

  -- In a run of the write tests, under the same conditions: when the client has just the last message
  -- of the test to send, the server's buffer holds what the client's held, and the client's is as it
  -- was.
  pub write_tp_test_copies :
      {t u : System} {m k : Memory}
      → Reach
          (start
            (client_calls clock F (write_throughput n))
            (server_calls clock F (write_throughput n)))
          t
      → receive 1 ∷ t.client ≡ calls_of (Client.write_tp_test clock F size n empty) ++ rest
      → length m.ours ≡ n
      → length m.theirs ≡ n
      → Trace t m u k
      → u.client ≡ send 0 1 ∷ rest
      → (k.theirs ≡ m.ours) × (k.ours ≡ m.ours)
  write_tp_test_copies {t} {u} {m} {k} r calls ours theirs path last =
      let writes = All-transfer_calls IsWrite write_at size n pos (λ o c le. tt) in
      let accesses =
        All-weaken IsWrite IsAccess (transfer_calls write_at size n) write-IsAccess writes in
      let memory =
        transfer_lem write_at size n rest (run-Orderly clock F (write_throughput n) room r) accesses
          (behind_opening _ (transfer_calls write_at size n) t.client write_calls_lem calls) path
          last
        ∙ applies-writes (transfer_calls write_at size n) m writes in
      (ap (λ x. x.theirs) memory ∙ writes_all m.ours m.theirs theirs ours, ap (λ x. x.ours) memory)
