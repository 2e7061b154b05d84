-- ===== src/Rdma/Memory.antt =====
-- What the reads and writes of a test do to memory: the peer's registered buffer, and the caller's.
use rdma_project.Common.{
  ℕ, zero, suc, ◌+◌, ◌-◌, ◌*◌, ◌/◌, ◌%◌, ◌<◌, ◌^◌, ◌≡◌, refl, sym, ap, ◌∙◌, List, [], ◌∷◌, ◌++◌,
  arith, length, take, drop, overwrite, overwrite_nil, overwrite-overwrite, overwrite_all,
  length-overwrite, length-take, length-drop, take-drop-append-take, take_all, ◌≤◌, append_assoc,
}
use rdma_project.Measure.{Floating}
use rdma_project.Rdma.Verbs.{Op, send, read, write}
use rdma_project.Rdma.Client
use rdma_project.Rdma.Client.Calls.{
  chunk_calls, read_at, write_at, read_tp_test-read_calls, write_tp_test-write_calls,
}
use rdma_project.Rdma.Agreement.{empty, calls_of, calls_of-Emits}

-- The caller's buffer after its reads, when the peer's holds `remote` meanwhile.
abbrev pub after_reads : List Op → (remote buffer : List ℕ) → List ℕ
after_reads [] remote buffer = buffer
after_reads (read here there n ∷ ops) remote buffer =
    after_reads ops remote (overwrite here (take n (drop there remote)) buffer)
after_reads (_ ∷ ops) remote buffer = after_reads ops remote buffer

after_reads-append :
    (p q : List Op) (remote buffer : List ℕ)
    → after_reads (p ++ q) remote buffer
      ≡ after_reads q remote (after_reads (p ++ []) remote buffer)
after_reads-append [] q remote buffer = refl
after_reads-append (read here there n ∷ p) q remote buffer = after_reads-append p q remote _
after_reads-append (_ ∷ p) q remote buffer = after_reads-append p q remote buffer

-- `n` bytes of `remote` from `off` on, next to the `m` before them.
next_piece :
    (off m n k : ℕ) (remote buffer : List ℕ)
    → off + m ≡ k
    → k + n ≤ length buffer
    → length remote ≡ length buffer
    → overwrite k (take n (drop k remote)) (overwrite off (take m (drop off remote)) buffer)
      ≡ overwrite off (take (m + n) (drop off remote)) buffer
next_piece off m n k remote buffer e room same =
    ap (λ i. overwrite i (take n (drop i remote)) (overwrite off (take m (drop off remote)) buffer))
      (sym e)
    ∙ overwrite-overwrite off m (take m (drop off remote)) (take n (drop (off + m) remote)) buffer
        (omega (arith, length-take m (drop off remote), length-drop off remote)) (omega arith)
    ∙ ap (λ z. overwrite off z buffer) (take-drop-append-take off m n (m + n) remote refl)

after_reads-chunk_calls :
    (q size off m : ℕ) (ops : List Op) (remote buffer : List ℕ)
    → m ≡ q * size
    → off + m ≤ length buffer
    → length remote ≡ length buffer
    → after_reads (chunk_calls read_at q size off ++ ops) remote buffer
      ≡ after_reads ops remote (overwrite off (take m (drop off remote)) buffer)
after_reads-chunk_calls zero size off m ops remote buffer e room same =
    let none_left : m ≡ 0 = omega arith in
    rw none_left (ap (after_reads ops remote) (sym (overwrite_nil off buffer)))
after_reads-chunk_calls (suc q) size off m ops remote buffer e room same =
    let rest = q * size in
    let whole : size + rest ≡ m = omega arith in
    let first = take size (drop off remote) in
    let kept : length (overwrite off first buffer) ≡ length buffer =
      length-overwrite off first buffer
        (omega (arith, length-take size (drop off remote), length-drop off remote)) in
    after_reads-chunk_calls q size (off + size) rest ops remote (overwrite off first buffer) refl
      (omega arith) (same ∙ sym kept)
    ∙ ap (after_reads ops remote)
        (next_piece off size rest (off + size) remote buffer refl (omega arith) same)
    ∙ ap (λ z. after_reads ops remote (overwrite off (take z (drop off remote)) buffer)) whole

-- The peer's registered buffer after the caller's writes of `bytes`.
abbrev pub after_writes : List Op → (bytes buffer : List ℕ) → List ℕ
after_writes [] bytes buffer = buffer
after_writes (write here there n ∷ ops) bytes buffer =
    after_writes ops bytes (overwrite there (take n (drop here bytes)) buffer)
after_writes (_ ∷ ops) bytes buffer = after_writes ops bytes buffer

after_writes-chunk_calls :
    (q size off : ℕ) (ops : List Op) (bytes buffer : List ℕ)
    → after_writes (chunk_calls write_at q size off ++ ops) bytes buffer
      ≡ after_writes ops bytes (after_reads (chunk_calls read_at q size off ++ []) bytes buffer)
after_writes-chunk_calls zero size off ops bytes buffer = refl
after_writes-chunk_calls (suc q) size off ops bytes buffer =
    after_writes-chunk_calls q size (off + size) ops bytes _

-- The full chunks and the rest, one behind the other, are all of `remote`.
whole_lem :
    (size : ℕ) (remote buffer : List ℕ)
    → 0 < size
    → length remote ≡ length buffer
    → overwrite
        (length buffer - length buffer % size)
        (take (length buffer % size) (drop (length buffer - length buffer % size) remote))
        (after_reads (chunk_calls read_at (length buffer / size) size 0 ++ []) remote buffer)
      ≡ remote
whole_lem size remote buffer pos same =
    let n = length buffer in
    let full = n - n % size in
    ap (overwrite full (take (n % size) (drop full remote))) (
      after_reads-chunk_calls (n / size) size 0 full [] remote buffer (grind arith) (omega arith)
        same)
    ∙ next_piece 0 full (n % size) full remote buffer (omega arith) (grind arith) same
    ∙ ap (λ z. overwrite 0 z buffer) (take_all (full + n % size) remote (grind arith))
    ∙ overwrite_all remote buffer same

module _ (clock : ℕ → ℕ) (F : Floating) (size : ℕ) (remote buffer : List ℕ) where
  -- For a chunk size above 0 that a `size_t` has room for behind the data: once `read_tp_test` has
  -- made its calls, the client's buffer, of whatever contents but of the size of the data, holds what
  -- the server's registered buffer holds.
  pub read_tp_test-after_reads :
      0 < size
      → length buffer + size < 2 ^ 64
      → length remote ≡ length buffer
      → after_reads
          (calls_of (Client.read_tp_test clock F size (length buffer) empty))
          remote
          buffer
        ≡ remote
  read_tp_test-after_reads pos room same =
      let n = length buffer in
      let full = n - n % size in
      rw (calls_of-Emits (read_tp_test-read_calls clock F size n empty pos room)) (
        ap (λ ops. after_reads ops remote buffer)
          (append_assoc (chunk_calls read_at (n / size) size 0) (read_at full (n % size) ∷ [])
            (send 0 1 ∷ []))
        ∙ after_reads-append (chunk_calls read_at (n / size) size 0)
            (read_at full (n % size) ∷ send 0 1 ∷ []) remote buffer
        ∙ whole_lem size remote buffer pos same)

  -- For a chunk size above 0 that a `size_t` has room for behind the data: once `write_tp_test` has
  -- made its calls, the server's registered buffer, of whatever contents but of the size of the data,
  -- holds what the client's holds.
  pub write_tp_test-after_writes :
      0 < size
      → length buffer + size < 2 ^ 64
      → length remote ≡ length buffer
      → after_writes
          (calls_of (Client.write_tp_test clock F size (length buffer) empty))
          remote
          buffer
        ≡ remote
  write_tp_test-after_writes pos room same =
      let n = length buffer in
      let full = n - n % size in
      rw (calls_of-Emits (write_tp_test-write_calls clock F size n empty pos room)) (
        ap (λ ops. after_writes ops remote buffer)
          (append_assoc (chunk_calls write_at (n / size) size 0) (write_at full (n % size) ∷ [])
            (send 0 1 ∷ []))
        ∙ after_writes-chunk_calls (n / size) size 0 (write_at full (n % size) ∷ send 0 1 ∷ [])
            remote buffer
        ∙ whole_lem size remote buffer pos same)
