-- ===== src/Tcp/Client/Sent.antt =====
-- What the tests of the client put on the stream.
use rdma_project.Common.{
  last_index_lem, ℕ, true, zero, suc, ◌+◌, ◌-◌, ◌*◌, ◌/◌, ◌%◌, ◌<◌, ◌≤◌, ◌^◌, ◌≡◌, refl, ap, ◌∙◌,
  List, [], ◌∷◌, ◌++◌, take, drop, arith, length, ltb, lt→ltb, le→ltb_false, append-nil,
  take-drop-append-take, take_all, length-drop, take-append-drop, map, All, length-append,
}
use rdma_project.Settings.{IsChunkSize, buffer_sizes-IsChunkSize, buffer_sizes}
use rdma_project.Host.{Kernel, Process}
use rdma_project.Host.Effect
use rdma_project.Host.Effect.{Effect, after}
use rdma_project.Host.Reliable.{Sends, Sends-later, Receives}
use rdma_project.Measure.{Floating}
use rdma_project.Utils.RandomData.{Random, dev_random_data-Effect, generate_random_data-Effect}
use rdma_project.Tcp.Socket.Effects.{
  sys_now-Effect, send_tcp_message-Effect, receive_message-Effect,
}
use rdma_project.Tcp.Client.{send_chunks, throughput_test, throughput_tests, run_throughput_tests}

abbrev pub Nothing : {A : Type 0} → A → Type 0
Nothing _ = Unit {0}

module _ (K : Kernel) where
  pub send_chunks-Effect :
      (f q : ℕ) (bytes : List ℕ) (size last off : ℕ) (s : Process)
      → Sends K s.calls
      → 0 < size
      → size < 2 ^ 31
      → last + size < 2 ^ 64
      → last ≡ off + q * size
      → q < f
      → Effect s
          (take (q * size) (drop off bytes))
          0
          0
          Nothing
          (send_chunks K f bytes size last off s)
  unfolding send_chunks
  send_chunks-Effect zero q bytes size last off s ok pos small room e fuel = absurd (omega arith)
  send_chunks-Effect (suc f) zero bytes size last off s ok pos small room e fuel =
      let none_left : 0 * size ≡ 0 = omega arith in
      rw (none_left, le→ltb_false off last (omega arith)) (Effect.returns s tt tt)
  send_chunks-Effect (suc f) (suc q) bytes size last off s ok pos small room e fuel =
      let more : ltb off last ≡ true = lt→ltb off last (omega arith) in
      let next : (off + size) % 2 ^ 64 ≡ off + size = omega arith in
      rw
        (more, next, ← take-drop-append-take off size (q * size) (suc q * size) bytes (omega arith))
        (Effect.bind s (take size (drop off bytes)) _ 0 0 0 0 _
          (send_tcp_message-Effect K (drop off bytes) size s ok small)
          λ _ c le _.
            send_chunks-Effect f q bytes size last (off + size) _ (Sends-later le ok) pos small room
              (omega arith) (omega arith))

-- The full chunks and the last one make up the data.
pub chunks_rejoin :
    (xs : List ℕ) (a b r : ℕ)
    → a ≡ b
    → b + r ≡ length xs
    → take a xs ++ (take r (drop b xs) ++ []) ≡ xs
chunks_rejoin xs a b r e h =
    rw
      (e, append-nil (take r (drop b xs)), take_all r (drop b xs) (omega (arith, length-drop b xs)))
      (take-append-drop b xs)

module _ (K : Kernel) (F : Floating) where
  -- On sockets that work, and once the reply has arrived, `throughput_test` returns. It has sent
  -- exactly the bytes of `data`, in order, and read the one byte of the reply.
  pub throughput_test-Effect :
      (size : ℕ) (bytes : List ℕ) (s : Process)
      → Sends K s.calls
      → Receives K
      → 0 < size
      → size < 2 ^ 31
      → 0 < length bytes
      → length bytes + size < 2 ^ 64
      → 0 < length s.inbound
      → Effect s bytes 1 0 Nothing (throughput_test K F size bytes s)
  unfolding throughput_test
  throughput_test-Effect size bytes s ok okr pos small some_bytes room there =
      let n = length bytes in
      let (whole, rounds, rest) = last_index_lem n size pos in
      let last = n - n % size in
      Effect.reshape
        (chunks_rejoin bytes (n / size * size) last (n % size) (omega arith) (omega arith))
        (omega arith) (omega arith)
        (Effect.bind s [] _ 0 _ 0 _ _ (sys_now-Effect K s) λ _ c le _.
          Effect.bind _ (take (n / size * size) bytes) _ 0 _ 0 _ _
            (send_chunks-Effect K (suc last) (n / size) bytes size last 0 _ (Sends-later le ok) pos
              small (omega arith) whole rounds)
            λ _ c' le' _.
              Effect.bind _ (take (n % size) (drop last bytes)) _ 0 _ 0 _ _
                (send_tcp_message-Effect K (drop last bytes) (n % size) _
                  (Sends-later (omega arith) ok) (omega arith))
                λ _ c'' le'' _.
                  Effect.bind _ [] _ 1 _ 0 _ _
                    (receive_message-Effect K 1 bytes _ okr (omega arith) (omega arith)
                      (omega arith))
                    λ _ _ _ _.
                      Effect.bind _ [] [] 0 0 0 0 _ (sys_now-Effect K _)
                        λ _ _ _ _. Effect.returns _ _ tt)

  -- A run of throughput tests sends `data_size` bytes for each size, reads one byte for each, and
  -- leaves one file open for each.
  pub throughput_tests-Effect :
      (sizes bytes : List ℕ) (data_size : ℕ) (s : Process)
      → Sends K s.calls
      → Receives K
      → Random K
      → All IsChunkSize sizes
      → length bytes ≡ data_size
      → 0 < data_size
      → data_size + 2 ^ 31 < 2 ^ 64
      → length sizes ≤ length s.inbound
      → (out : List ℕ) × (length out ≡ length sizes * data_size)
        × Effect s out
            (length sizes)
            (length sizes)
            (λ ls. map (λ l. l.buffer_size) ls ≡ sizes)
            (throughput_tests K F sizes bytes data_size s)
  unfolding throughput_tests
  throughput_tests-Effect [] bytes n s ok okr rand valid w pos room there =
      ([], omega arith, Effect.returns s [] refl)
  throughput_tests-Effect (size ∷ sizes) bytes n s ok okr rand valid w pos room there =
      let test =
        throughput_test-Effect size bytes s ok okr valid.0.0 valid.0.1 (omega arith) (omega arith)
          (omega arith) in
      let s1 = after s bytes 1 0 test.last in
      let fill = dev_random_data-Effect K rand bytes n s1 (omega arith) in
      let s2 = after s1 [] 0 1 fill.last in
      let (out, many, rest) =
        throughput_tests-Effect sizes fill.value n s2
          (Sends-later (omega (arith, test.later, fill.later)) ok) okr rand valid.1 (fill.holds ∙ w)
          pos room (omega (arith, length-drop 1 s.inbound)) in
      (
        bytes ++ out,
        omega (arith, length-append bytes out),
        Effect.reshape (ap (λ z. bytes ++ z) (append-nil out)) (omega arith) (omega arith) (
            Effect.bind_at s bytes _ 1 _ 0 _ _ test (
              Effect.bind_at s1 [] _ 0 _ 1 _ _ fill (
                Effect.bind_at s2 out _ (length sizes) _ (length sizes) _ _ rest
                  (Effect.returns _ _ (ap (◌∷◌ size) rest.holds))))),
      )

  pub run_throughput_tests-Effect :
      (data_size : ℕ) (s : Process)
      → Sends K s.calls
      → Receives K
      → Random K
      → 0 < data_size
      → data_size + 2 ^ 31 < 2 ^ 64
      → length buffer_sizes ≤ length s.inbound
      → (out : List ℕ) × (length out ≡ length buffer_sizes * data_size)
        × Effect s out
            (length buffer_sizes)
            (1 + length buffer_sizes)
            (λ ls. map (λ l. l.buffer_size) ls ≡ buffer_sizes)
            (run_throughput_tests K F data_size s)
  unfolding run_throughput_tests
  run_throughput_tests-Effect n s ok okr rand pos room there =
      let fill = generate_random_data-Effect K rand n s in
      let (out, many, rest) =
        throughput_tests-Effect buffer_sizes fill.value n (after s [] 0 1 fill.last)
          (Sends-later fill.later ok) okr rand buffer_sizes-IsChunkSize fill.holds pos room there in
      (
        out,
        many,
        Effect.reshape refl (omega arith) refl
            (Effect.bind_at s [] out 0 (length buffer_sizes) 1 (length buffer_sizes) _ fill rest),
      )
