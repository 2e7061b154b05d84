-- ===== src/Tcp/Server/Latency.antt =====
-- What the latency tests of the server take from the stream.
use rdma_project.Common.{
  ℕ, zero, suc, ◌+◌, ◌*◌, ◌<◌, ◌≤◌, ◌^◌, ◌≡◌, refl, sym, ap, ◌∙◌, List, [], ◌∷◌, take, drop, arith,
  length, overwrite, overwrite_all, append-nil, replicate, length-replicate, length-take,
  length-drop, All,
}
use rdma_project.Settings.{IsChunkSize, num_loops}
use rdma_project.Host.{Kernel, Process}
use rdma_project.Host.Effect
use rdma_project.Host.Effect.{Effect, after}
use rdma_project.Host.Reliable.{Sends, Sends-later, Receives}
use rdma_project.Tcp.Socket.Effects.{send_tcp_message-Effect, receive_message-Effect}
use rdma_project.Tcp.Client.Latency.{volume}
use rdma_project.Tcp.Server.{receive_loops, latency_test, latency_tests, control_message}
use rdma_project.Tcp.Server.Received.{fill_whole}

-- The last of `n` messages of `size` bytes, `d` if there is none.
abbrev pub last_message : (n size : ℕ) (stream d : List ℕ) → List ℕ
last_message zero size stream d = d
last_message (suc n) size stream d = last_message n size (drop size stream) (take size stream)

-- What the tests hold in the end: of each size the last message.
abbrev pub LastMessages : (sizes stream : List ℕ) → List (List ℕ) → Type 0
LastMessages [] stream [] = Unit {0}
LastMessages (size ∷ sizes) stream (d ∷ ds) =
    (d ≡ last_message num_loops size stream (replicate size 0))
    × LastMessages sizes (drop (num_loops * size) stream) ds
LastMessages _ stream _ = ⊥

module _ (K : Kernel) (ok : Receives K) where
  receive_loops-Effect :
      (n size : ℕ) (little bytes : List ℕ) (s : Process)
      → size < 2 ^ 31
      → length little ≡ size
      → length bytes ≡ size
      → n * size ≤ length s.inbound
      → Effect s []
          (n * size)
          0
          (λ d. d ≡ last_message n size s.inbound bytes)
          (receive_loops K n size little bytes s)
  unfolding receive_loops
  receive_loops-Effect zero size little bytes s small w v there =
      Effect.reshape refl (omega arith) refl (Effect.returns s bytes refl)
  receive_loops-Effect (suc n) size little bytes s small w v there =
      let split : suc n * size ≡ size + n * size = omega arith in
      Effect.reshape refl (sym split) refl (
        Effect.bind s [] [] size (n * size) 0 0 _
          (receive_message-Effect K size little s ok small (omega arith) (omega arith))
          λ l c later filled.
            let whole : l ≡ take size s.inbound =
              filled ∙ fill_whole size s.inbound little w (omega arith) in
            let width : length l ≡ size = rw whole (omega (arith, length-take size s.inbound)) in
            let copied : overwrite 0 l bytes ≡ take size s.inbound =
              overwrite_all l bytes (omega arith) ∙ whole in
            rw (copied) (
              receive_loops-Effect n size l (take size s.inbound) _ small width
                (omega (arith, length-take size s.inbound))
                (omega (arith, length-drop size s.inbound))))

  pub latency_test-Effect :
      (size : ℕ) (s : Process)
      → Sends K s.calls
      → IsChunkSize size
      → num_loops * size ≤ length s.inbound
      → Effect s
          (b'y' ∷ [])
          (num_loops * size)
          0
          (λ d. d ≡ last_message num_loops size s.inbound (replicate size 0))
          (latency_test K size s)
  unfolding latency_test
  latency_test-Effect size s oks valid there = Effect.reshape refl (omega arith) refl (
      Effect.bind s [] _ (num_loops * size) _ 0 _ _
        (receive_loops-Effect num_loops size (replicate size 0) (replicate size 0) s valid.1
          (length-replicate size 0) (length-replicate size 0) there)
        λ d c le got.
          Effect.bind _ (b'y' ∷ []) [] 0 0 0 0 _
            (send_tcp_message-Effect K control_message 1 _ (Sends-later le oks) (omega arith))
            λ _ _ _ _. Effect.returns _ d got)

  -- A run of latency tests takes the messages of each size from the stream, one behind the other,
  -- holds the last of each size, and answers each test with one byte.
  pub latency_tests-Effect :
      (sizes : List ℕ) (s : Process)
      → Sends K s.calls
      → All IsChunkSize sizes
      → volume sizes ≤ length s.inbound
      → Effect s
          (replicate (length sizes) b'y')
          (volume sizes)
          0
          (LastMessages sizes s.inbound)
          (latency_tests K sizes s)
  unfolding latency_tests
  latency_tests-Effect [] s oks valid there = Effect.returns s [] tt
  latency_tests-Effect (size ∷ sizes) s oks valid there =
      Effect.reshape (ap (◌∷◌ b'y') (append-nil _)) (omega arith) refl (
        Effect.bind s (b'y' ∷ []) _ (num_loops * size) _ 0 _ _
          (latency_test-Effect size s oks valid.0 (omega arith))
          λ d c le got.
            Effect.bind _ (replicate (length sizes) b'y') _ (volume sizes) _ 0 _ _
              (latency_tests-Effect sizes _ (Sends-later le oks) valid.1
                (omega (arith, length-drop (num_loops * size) s.inbound)))
              λ ds _ _ rest. Effect.returns _ _ (got, rest))
