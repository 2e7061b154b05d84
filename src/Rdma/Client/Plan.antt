-- ===== src/Rdma/Client/Plan.antt =====
-- The calls of the throughput tests of RdmaClient, and of their loops.
use rdma_project.Common.{
  last_index_lem, ℕ, zero, suc, ◌+◌, ◌-◌, ◌*◌, ◌/◌, ◌%◌, ◌<◌, ◌≤◌, ◌^◌, ◌≡◌, List, [], ◌∷◌, ◌++◌,
  true, arith, ltb, lt→ltb, le→ltb_false, replicate, All, All-append,
}
use rdma_project.Settings.{buffer_sizes}
use rdma_project.Rdma.Verbs.{Op, Log, connect, send, receive, read, write, randomize}
use rdma_project.Rdma.Verbs.Emits
use rdma_project.Rdma.Verbs.Emits.{Emits, Any, emit_lem, now_lem}
use rdma_project.Rdma.Client.{read_loop, write_loop, receive_loop}

-- `q` calls for consecutive chunks of `size` bytes, from offset `off` on.
abbrev pub chunk_calls : (ℕ → ℕ → Op) → (q size off : ℕ) → List Op
chunk_calls call zero size off = []
chunk_calls call (suc q) size off = call off size ∷ chunk_calls call q size (off + size)

-- All of `n` bytes: the full chunks, and what is left.
abbrev pub transfer_calls : (ℕ → ℕ → Op) → (size n : ℕ) → List Op
transfer_calls call size n =
    chunk_calls call (n / size) size 0 ++ call (n - n % size) (n % size) ∷ []

abbrev pub read_at : ℕ → ℕ → Op
read_at off n = read off off n

abbrev pub write_at : ℕ → ℕ → Op
write_at off n = write off off n

abbrev pub read_calls : (size n : ℕ) → List Op
read_calls size n = receive 1 ∷ (transfer_calls read_at size n ++ send 0 1 ∷ [])

abbrev pub write_calls : (size n : ℕ) → List Op
write_calls size n = receive 1 ∷ (transfer_calls write_at size n ++ send 0 1 ∷ [])

-- `q` is the number of receives.
abbrev pub two_sided_calls : (size q : ℕ) → List Op
two_sided_calls size q = send 0 1 ∷ (replicate q (receive size) ++ send 0 1 ∷ [])

-- The calls of a run over chunk sizes.
abbrev pub calls_for : (ℕ → List Op) → List ℕ → List Op
calls_for calls [] = []
calls_for calls (size ∷ sizes) = calls size ++ calls_for calls sizes

-- The calls of the three runs of throughput tests on `n` bytes.
abbrev pub read_run : ℕ → List Op
read_run n = connect ∷ (calls_for (λ size. read_calls size n) buffer_sizes ++ send 0 1 ∷ [])

abbrev pub write_run : ℕ → List Op
write_run n =
    randomize n
    ∷ connect
    ∷ (calls_for (λ size. write_calls size n ++ randomize n ∷ []) buffer_sizes ++ send 0 1 ∷ [])

abbrev pub two_sided_run : ℕ → List Op
two_sided_run n =
    connect ∷ calls_for (λ size. two_sided_calls size (suc ((n - 1) / size))) buffer_sizes

-- What holds of every chunk of `n` bytes holds of all calls of a transfer.
module _ (P : Op → Type 0) (call : ℕ → ℕ → Op) where
  All-chunk_calls :
      (q size off n : ℕ)
      → ((o m : ℕ) → o + m ≤ n → P (call o m))
      → off + q * size ≤ n
      → All P (chunk_calls call q size off)
  All-chunk_calls zero size off n fits le = tt
  All-chunk_calls (suc q) size off n fits le = (
    fits off size (omega (arith, le)),
    All-chunk_calls q size (off + size) n fits (omega (arith, le)),
  )

  pub All-transfer_calls :
      (size n : ℕ)
      → 0 < size
      → ((o m : ℕ) → o + m ≤ n → P (call o m))
      → All P (transfer_calls call size n)
  All-transfer_calls size n pos fits =
      let (whole, rounds, rest) = last_index_lem n size pos in
      All-append P (chunk_calls call (n / size) size 0) _
        (All-chunk_calls (n / size) size 0 n fits (omega (arith, whole)))
        (fits (n - n % size) (n % size) (omega arith), tt)

pub read_loop-chunk_calls :
    (f q size last off : ℕ) (s : Log)
    → 0 < size
    → last + size < 2 ^ 64
    → last ≡ off + q * size
    → q < f
    → Emits s (chunk_calls read_at q size off) Any (read_loop f size last off s)
unfolding read_loop
read_loop-chunk_calls zero q size last off s pos room e fuel = absurd (omega arith)
read_loop-chunk_calls (suc f) zero size last off s pos room e fuel =
    rw (le→ltb_false off last (omega arith)) (Emits.returns s tt tt)
read_loop-chunk_calls (suc f) (suc q) size last off s pos room e fuel =
    let more : ltb off last ≡ true = lt→ltb off last (omega arith) in
    let next : (off + size) % 2 ^ 64 ≡ off + size = omega arith in
    rw (more, next)
      (Emits.bind s (read_at off size ∷ []) _ _ (emit_lem _ s) λ _ t _.
        read_loop-chunk_calls f q size last (off + size) t pos room (omega arith) (omega arith))

pub write_loop-chunk_calls :
    (f q size last off : ℕ) (s : Log)
    → 0 < size
    → last + size < 2 ^ 64
    → last ≡ off + q * size
    → q < f
    → Emits s (chunk_calls write_at q size off) Any (write_loop f size last off s)
unfolding write_loop
write_loop-chunk_calls zero q size last off s pos room e fuel = absurd (omega arith)
write_loop-chunk_calls (suc f) zero size last off s pos room e fuel =
    rw (le→ltb_false off last (omega arith)) (Emits.returns s tt tt)
write_loop-chunk_calls (suc f) (suc q) size last off s pos room e fuel =
    let more : ltb off last ≡ true = lt→ltb off last (omega arith) in
    let next : (off + size) % 2 ^ 64 ≡ off + size = omega arith in
    rw (more, next)
      (Emits.bind s (write_at off size ∷ []) _ _ (emit_lem _ s) λ _ t _.
        write_loop-chunk_calls f q size last (off + size) t pos room (omega arith) (omega arith))

-- The loop `for (x = 0; x < data_size; x += buffer_size)` runs once more than full chunks fit in
-- front of a rest that is not empty.
pub receive_loop-replicate :
    (f q size n r x : ℕ) (s : Log)
    → 0 < r
    → r ≤ size
    → n + size < 2 ^ 64
    → n ≡ x + q * size + r
    → suc q < f
    → Emits s (replicate (suc q) (receive size)) Any (receive_loop f size n x s)
unfolding receive_loop
receive_loop-replicate zero q size n r x s pos le room e fuel = absurd (omega arith)
receive_loop-replicate (suc zero) q size n r x s pos le room e fuel = absurd (omega arith)
receive_loop-replicate (suc (suc f)) zero size n r x s pos le room e fuel =
    let more : ltb x n ≡ true = lt→ltb x n (omega arith) in
    let next : (x + size) % 2 ^ 64 ≡ x + size = omega arith in
    rw (more, next, le→ltb_false (x + size) n (omega arith))
      (Emits.bind s (receive size ∷ []) _ _ (emit_lem _ s) λ _ t _. Emits.returns t tt tt)
receive_loop-replicate (suc (suc f)) (suc q) size n r x s pos le room e fuel =
    let more : ltb x n ≡ true = lt→ltb x n (omega arith) in
    let next : (x + size) % 2 ^ 64 ≡ x + size = omega arith in
    rw (more, next)
      (Emits.bind s (receive size ∷ []) _ _ (emit_lem _ s) λ _ t _.
        receive_loop-replicate (suc f) q size n r (x + size) t pos le room (omega arith)
          (omega arith))
