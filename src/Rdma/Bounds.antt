-- ===== src/Rdma/Bounds.antt =====
-- Where the one-sided tests read and write: RdmaClient.cpp gives each test a buffer of its own, and
-- RdmaServer.cpp registers one for the whole run.
use rdma_project.Common.{
  ℕ, ◌+◌, ◌<◌, ◌≤◌, ◌^◌, List, All, All-append, All-replicate, All-weaken, arith,
}
use rdma_project.Settings.{
  buffer_sizes-IsChunkSize, buffer_sizes, latency_buffer_sizes, max_buffer_size, num_loops,
}
use rdma_project.Measure.{Floating}
use rdma_project.Rdma.Verbs.{Op, read, write}
use rdma_project.Rdma.Client
use rdma_project.Rdma.Client.Calls as ClientCalls
use rdma_project.Rdma.Client.Calls.{transfer_calls, read_at, write_at}
use rdma_project.Rdma.Client.Plan.{All-transfer_calls}
use rdma_project.Rdma.Client.Latency as ClientLatency
use rdma_project.Rdma.Agreement.{empty, calls_of, calls_of-Emits}
use rdma_project.Rdma.Exclusive.Runs.{
  OneSided, read_throughput, write_throughput, read_latency, write_latency, HasRoom,
}

-- A read or a write stays in a local buffer of `l` bytes and a remote one of `r`.
abbrev pub InBounds : (l r : ℕ) → Op → Type 0
InBounds l r (read here there n) = (here + n ≤ l) × (there + n ≤ r)
InBounds l r (write here there n) = (here + n ≤ l) × (there + n ≤ r)
InBounds l r _ = Unit {0}

-- The chunk sizes of a run, the length of the client's buffer in the test for one, and the length of
-- the server's.
abbrev pub sizes_of : OneSided → List ℕ
sizes_of (read_throughput n) = buffer_sizes
sizes_of (write_throughput n) = buffer_sizes
sizes_of read_latency = latency_buffer_sizes
sizes_of write_latency = latency_buffer_sizes

abbrev pub client_buffer : OneSided → (size : ℕ) → ℕ
client_buffer (read_throughput n) size = n
client_buffer (write_throughput n) size = n
client_buffer read_latency size = size
client_buffer write_latency size = size

abbrev pub server_buffer : OneSided → ℕ
server_buffer (read_throughput n) = n
server_buffer (write_throughput n) = n
server_buffer read_latency = max_buffer_size
server_buffer write_latency = max_buffer_size

latency_sizes_fit : All (λ size. size ≤ max_buffer_size) latency_buffer_sizes
unfolding latency_buffer_sizes
latency_sizes_fit = omega arith

chunk_sizes_room :
    (n : ℕ) → n + 2 ^ 31 < 2 ^ 64 → All (λ size. (0 < size) × (n + size < 2 ^ 64)) buffer_sizes
chunk_sizes_room n room =
    All-weaken _ _ buffer_sizes (λ size (pos, small). (pos, omega (arith, small, room)))
      buffer_sizes-IsChunkSize

module _ (clock : ℕ → ℕ) (F : Floating) where
  -- The calls of the test for one chunk size.
  abbrev pub test_calls : OneSided → (size : ℕ) → List Op
  test_calls (read_throughput n) size = calls_of (Client.read_tp_test clock F size n empty)
  test_calls (write_throughput n) size = calls_of (Client.write_tp_test clock F size n empty)
  test_calls read_latency size = calls_of (Client.read_latency_test clock F size empty)
  test_calls write_latency size = calls_of (Client.write_latency_test clock F size empty)

  -- In each one-sided run, with data that leave 2^31 to a `size_t`: no test for a chunk size of the run
  -- reads or writes behind the end of the client's buffer or of the server's.
  pub accesses-InBounds :
      (run : OneSided)
      → HasRoom run
      → All
          (λ size.
            All (InBounds (client_buffer run size) (server_buffer run)) (test_calls run size))
          (sizes_of run)
  accesses-InBounds (read_throughput n) room =
      All-weaken _ _ buffer_sizes
        (λ size (pos, small).
          rw (calls_of-Emits (ClientCalls.read_tp_test-read_calls clock F size n empty pos small)) (
            tt,
            All-append _ (transfer_calls read_at size n) _
                (All-transfer_calls _ read_at size n pos (λ o m le. (le, le))) (tt, tt),
          ))
        (chunk_sizes_room n room)
  accesses-InBounds (write_throughput n) room =
      All-weaken _ _ buffer_sizes
        (λ size (pos, small).
          rw (calls_of-Emits (ClientCalls.write_tp_test-write_calls clock F size n empty pos small))
            (
              tt,
              All-append _ (transfer_calls write_at size n) _
                  (All-transfer_calls _ write_at size n pos (λ o m le. (le, le))) (tt, tt),
            ))
        (chunk_sizes_room n room)
  accesses-InBounds read_latency room =
      All-weaken _ _ latency_buffer_sizes
        (λ size le.
          rw (calls_of-Emits (ClientLatency.read_latency_test-read_calls clock F size empty))
            (All-replicate _ num_loops (read 0 0 size) (omega arith, omega (arith, le))))
        latency_sizes_fit
  accesses-InBounds write_latency room =
      All-weaken _ _ latency_buffer_sizes
        (λ size le.
          rw (calls_of-Emits (ClientLatency.write_latency_test-write_calls clock F size empty))
            (tt, All-replicate _ num_loops (write 0 0 size) (omega arith, omega (arith, le))))
        latency_sizes_fit
