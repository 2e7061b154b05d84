-- ===== src/Tcp/Server/Received.antt =====
-- What the tests of the server take from the stream.
use rdma_project.Common.{
  last_index_lem, ℕ, true, zero, suc, ◌+◌, ◌-◌, ◌*◌, ◌/◌, ◌%◌, ◌<◌, ◌≤◌, ◌^◌, ◌≡◌, refl, sym, ap,
  ◌∙◌, List, [], ◌∷◌, take, drop, arith, length, ltb, lt→ltb, le→ltb_false, append-nil,
  take-append-take, overwrite, overwrite-overwrite, overwrite_all, length-take, length-drop,
  length-overwrite, replicate, length-replicate, take-append_of_eq, overwrite_nil, All, flatten,
}
use rdma_project.Settings.{IsChunkSize}
use rdma_project.Host.{Kernel, Process}
use rdma_project.Host.Effect
use rdma_project.Host.Effect.{Effect, after}
use rdma_project.Host.Reliable.{Sends, Sends-later, Receives}
use rdma_project.Tcp.Socket.Effects.{send_tcp_message-Effect, receive_message-Effect}
use rdma_project.Tcp.Server.{receive_chunks, throughput_test, throughput_tests, control_message}

abbrev Filled : ℕ → ℕ → List ℕ → List ℕ → List ℕ × List ℕ → Type 0
Filled size off got bytes (l, d) = (length l ≡ size) × (d ≡ overwrite off got bytes)

-- A little buffer is filled whole.
pub fill_whole :
    (n : ℕ) (inb little : List ℕ)
    → length little ≡ n
    → n ≤ length inb
    → overwrite 0 (take n inb) little ≡ take n inb
fill_whole n inb little e le = overwrite_all (take n inb) little (omega (arith, length-take n inb))

-- One more chunk in front.
Filled-chunk :
    (size off n : ℕ) (inb bytes little : List ℕ) (p : List ℕ × List ℕ)
    → off ≤ length bytes
    → size ≤ length inb
    → little ≡ take size inb
    → Filled size (off + size) (take n (drop size inb)) (overwrite off little bytes) p
    → Filled size off (take (size + n) inb) bytes p
Filled-chunk size off n inb bytes little (l, d) room there e (w, f) = (
  w,
  rw
      (
        f,
        e,
        overwrite-overwrite off size (take size inb) (take n (drop size inb)) bytes
            (omega (arith, length-take size inb)) room,
        take-append-take size n inb,
      )
      refl,
)

-- The copy of the last chunk leaves the front of the little buffer.
last_chunk :
    (r : ℕ) (bytes little got : List ℕ)
    → length bytes ≡ r
    → r ≤ length little
    → got ≡ overwrite 0 bytes little
    → take (length got - (length got - r)) got ≡ bytes
last_chunk r bytes little got e le filled =
    let same : length got ≡ length little =
      rw filled (length-overwrite 0 bytes little (omega arith)) in
    let kept : length got - (length got - r) ≡ r = omega arith in
    rw (kept, filled) (take-append_of_eq r bytes _ e)

-- The full chunks and the last one, written one behind the other into a buffer of the right size.
assemble :
    (n a r last : ℕ) (inb zeros d l got : List ℕ)
    → last ≡ a
    → a + r ≡ n
    → n ≤ length inb
    → length zeros ≡ n
    → r ≤ length l
    → d ≡ overwrite 0 (take a inb) zeros
    → got ≡ overwrite 0 (take r (drop a inb)) l
    → overwrite last (take (length got - (length got - r)) got) d ≡ take n inb
assemble n a r last inb zeros d l got e sum there z w f filled =
    let many : length (take r (drop a inb)) ≡ r =
      omega (arith, length-take r (drop a inb), length-drop a inb) in
    let front : length (take a inb) ≡ a = omega (arith, length-take a inb) in
    let at : last ≡ 0 + a = omega arith in
    rw
      (
        last_chunk r (take r (drop a inb)) l got many w filled,
        f,
        at,
        overwrite-overwrite 0 a (take a inb) (take r (drop a inb)) zeros front (omega arith),
        take-append-take a r inb,
        sum,
      )
      (overwrite_all (take n inb) zeros (omega (arith, length-take n inb)))

module _ (K : Kernel) (ok : Receives K) where
  receive_chunks-Effect :
      (f q size last off : ℕ) (little bytes : List ℕ) (s : Process)
      → 0 < size
      → size < 2 ^ 31
      → last + size < 2 ^ 64
      → last ≡ off + q * size
      → q < f
      → length little ≡ size
      → last ≤ length bytes
      → q * size ≤ length s.inbound
      → Effect s []
          (q * size)
          0
          (Filled size off (take (q * size) s.inbound) bytes)
          (receive_chunks K f size last off little bytes s)
  unfolding receive_chunks
  receive_chunks-Effect zero q size last off little bytes s pos small room e fuel w le there =
      absurd (omega arith)
  receive_chunks-Effect (suc f) zero size last off little bytes s pos small room e fuel w le there =
      let none_left : 0 * size ≡ 0 = omega arith in
      rw (none_left, le→ltb_false off last (omega arith))
        (Effect.returns s (little, bytes) (w, sym (overwrite_nil off bytes)))
  receive_chunks-Effect (suc f) (suc q) size last off little bytes s pos small room e fuel w le
        there =
      let more : ltb off last ≡ true = lt→ltb off last (omega arith) in
      let next : (off + size) % 2 ^ 64 ≡ off + size = omega arith in
      let split : suc q * size ≡ size + q * size = omega arith in
      rw (more, next, split)
        (Effect.bind s [] [] size (q * size) 0 0 _
          (receive_message-Effect K size little s ok small (omega arith) (omega arith))
          λ l c later filled.
            let whole = filled ∙ fill_whole size s.inbound little w (omega arith) in
            let many = length-take size s.inbound in
            let width : length l ≡ size = rw whole (omega (arith, many)) in
            let same = length-overwrite off l bytes (omega arith) in
            Effect.weaken
              (λ p.
                Filled-chunk size off (q * size) s.inbound bytes l p (omega arith) (omega arith)
                  whole)
              (receive_chunks-Effect f q size last (off + size) l (overwrite off l bytes) _ pos
                small room (omega arith) (omega arith) width (omega arith)
                (omega (arith, length-drop size s.inbound))))

  -- While `data_size` bytes arrive, `throughput_test` returns. It has taken exactly those from the
  -- stream, its copy of the data is those bytes in order, and it has answered with the byte `y`.
  pub throughput_test-Effect :
      (size data_size : ℕ) (s : Process)
      → Sends K s.calls
      → 0 < size
      → size < 2 ^ 31
      → data_size + size < 2 ^ 64
      → data_size ≤ length s.inbound
      → Effect s
          (b'y' ∷ [])
          data_size
          0
          (λ d. d ≡ take data_size s.inbound)
          (throughput_test K size data_size s)
  unfolding throughput_test
  throughput_test-Effect size n s oks pos small room there =
      let (whole, rounds, rest) = last_index_lem n size pos in
      let last = n - n % size in
      let zeros : length (replicate {A = ℕ} n 0) ≡ n = length-replicate n 0 in
      let little_zeros : length (replicate {A = ℕ} size 0) ≡ size = length-replicate size 0 in
      Effect.reshape refl (omega arith) (omega arith) (
        Effect.bind s [] _ (n / size * size) _ 0 _ _
          (receive_chunks-Effect (suc last) (n / size) size last 0 (replicate size 0)
            (replicate n 0) s pos small (omega arith) whole rounds little_zeros
            (omega (arith, zeros)) (omega arith))
          λ (l, d) c le (w, f).
            Effect.bind _ [] _ (n % size) _ 0 _ _
              (receive_message-Effect K (n % size) l _ ok (omega arith) (omega arith)
                (omega (arith, length-drop (n / size * size) s.inbound)))
              λ got c' le' filled.
                Effect.bind _ (b'y' ∷ []) [] 0 0 0 0 _
                  (send_tcp_message-Effect K control_message 1 _ (Sends-later (omega arith) oks)
                    (omega arith))
                  λ _ _ _ _. Effect.returns _ _ (
                    assemble n (n / size * size) (n % size) last s.inbound (replicate n 0) d l got
                      (omega arith) (omega arith) there zeros (omega arith) f filled))

  -- A run of throughput tests takes the data of each size from the stream, one behind the other,
  -- and answers each with one byte.
  pub throughput_tests-Effect :
      (sizes : List ℕ) (data_size : ℕ) (s : Process)
      → Sends K s.calls
      → All IsChunkSize sizes
      → data_size + 2 ^ 31 < 2 ^ 64
      → length sizes * data_size ≤ length s.inbound
      → Effect s
          (replicate (length sizes) b'y')
          (length sizes * data_size)
          0
          (λ ds. flatten ds ≡ take (length sizes * data_size) s.inbound)
          (throughput_tests K sizes data_size s)
  unfolding throughput_tests
  throughput_tests-Effect [] n s oks valid room there =
      Effect.reshape refl (omega arith) refl
        (Effect.returns s [] (let none_left : 0 * n ≡ 0 = omega arith in rw none_left refl))
  throughput_tests-Effect (size ∷ sizes) n s oks valid room there =
      Effect.reshape (ap (◌∷◌ b'y') (append-nil _)) (omega arith) (omega arith) (
        Effect.bind s (b'y' ∷ []) _ n _ 0 _ _
          (throughput_test-Effect size n s oks valid.0.0 valid.0.1 (omega arith) (omega arith))
          λ d c le got.
            Effect.bind _ (replicate (length sizes) b'y') _ (length sizes * n) _ 0 _ _
              (throughput_tests-Effect sizes n _ (Sends-later le oks) valid.1 room
                (omega (arith, length-drop n s.inbound)))
              λ ds _ _ rest. Effect.returns _ _ (
                let split : suc (length sizes) * n ≡ n + length sizes * n = omega arith in
                rw (got, rest, split) (take-append-take n (length sizes * n) s.inbound)))
