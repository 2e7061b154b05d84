-- ===== src/Tcp/Client/Latency.antt =====
-- What the latency tests of the client put on the stream.
use rdma_project.Common.{
  ℕ, zero, suc, ◌+◌, ◌*◌, ◌%◌, ◌<◌, ◌≤◌, ◌^◌, ◌≡◌, refl, ap, List, [], ◌∷◌, ◌++◌, take, arith,
  length, get_or, append-nil, map, All, All-get_or, length-append, length-take, length-drop,
}
use rdma_project.Settings.{
  IsChunkSize, latency_buffer_sizes-IsChunkSize, latency_buffer_sizes, num_loops,
}
use rdma_project.Host.{Kernel, Process}
use rdma_project.Host.Effect
use rdma_project.Host.Effect.{Effect, after}
use rdma_project.Host.Reliable.{Sends, Sends-later, Receives}
use rdma_project.Measure.{Floating}
use rdma_project.Utils.RandomData.{Random, HasLength, generate_random_data-Effect}
use rdma_project.Tcp.Socket.Effects.{
  sys_now-Effect, send_tcp_message-Effect, receive_message-Effect,
}
use rdma_project.Tcp.Client.{
  num_buffers, send_loops, make_buffers, latency_test, latency_tests, run_latency_tests,
}
use rdma_project.Tcp.Client.Sent.{Nothing}

-- The messages of `n` rounds from number `i` on.
abbrev pub loop_bytes : (n i : ℕ) → List (List ℕ) → ℕ → List ℕ
loop_bytes zero i buffers size = []
loop_bytes (suc n) i buffers size =
    take size (get_or buffers (i % num_buffers) []) ++ loop_bytes n (i + 1) buffers size

-- As many buffers as there are to be, each of the right size.
abbrev pub AreBuffers : ℕ → ℕ → List (List ℕ) → Type 0
AreBuffers n size bs = (length bs ≡ n) × All (HasLength size) bs

pub length-loop_bytes :
    (n i : ℕ) (buffers : List (List ℕ)) (size : ℕ)
    → AreBuffers num_buffers size buffers
    → length (loop_bytes n i buffers size) ≡ n * size
length-loop_bytes zero i buffers size are = omega arith
length-loop_bytes (suc n) i buffers size are =
    let buffer = get_or buffers (i % num_buffers) [] in
    let whole : length buffer ≡ size =
      All-get_or (HasLength size) buffers (i % num_buffers) [] are.1 (omega (arith, are.0)) in
    omega (
      arith,
      whole,
      length-append (take size buffer) (loop_bytes n (i + 1) buffers size),
      length-take size buffer,
      length-loop_bytes n (i + 1) buffers size are,
    )

-- The bytes of the tests for all these chunk sizes.
abbrev pub volume : List ℕ → ℕ
volume [] = 0
volume (size ∷ sizes) = num_loops * size + volume sizes

module _ (K : Kernel) where
  pub make_buffers-Effect :
      (n size : ℕ) (s : Process)
      → Random K
      → Effect s [] 0 n (AreBuffers n size) (make_buffers K n size s)
  unfolding make_buffers
  make_buffers-Effect zero size s rand = Effect.returns s [] (refl, tt)
  make_buffers-Effect (suc n) size s rand = Effect.reshape refl refl (omega arith) (
      Effect.bind s [] _ 0 _ 1 _ _ (generate_random_data-Effect K rand size s) λ buf c _ w.
        Effect.bind _ [] [] 0 0 n 0 _ (make_buffers-Effect n size _ rand)
          λ bs _ _ are. Effect.returns _ _ (ap suc are.0, (w, are.1)))

  pub send_loops-Effect :
      (n i : ℕ) (buffers : List (List ℕ)) (size : ℕ) (s : Process)
      → Sends K s.calls
      → size < 2 ^ 31
      → Effect s (loop_bytes n i buffers size) 0 0 Nothing (send_loops K n i buffers size s)
  unfolding send_loops
  send_loops-Effect zero i buffers size s ok small = Effect.returns s tt tt
  send_loops-Effect (suc n) i buffers size s ok small =
      Effect.bind s (take size (get_or buffers (i % num_buffers) [])) _ 0 0 0 0 _
        (send_tcp_message-Effect K _ size s ok small)
        λ _ c le _. send_loops-Effect n (i + 1) buffers size _ (Sends-later le ok) small

module _ (K : Kernel) (F : Floating) where
  pub latency_test-Effect :
      (size : ℕ) (s : Process)
      → Sends K s.calls
      → Receives K
      → Random K
      → IsChunkSize size
      → 0 < length s.inbound
      → (out : List ℕ) × (length out ≡ num_loops * size)
        × Effect s out 1 num_buffers Nothing (latency_test K F size s)
  unfolding latency_test
  latency_test-Effect size s ok okr rand valid there =
      let made = make_buffers-Effect K num_buffers size s rand in
      let first : length (get_or made.value 0 []) ≡ size =
        All-get_or (HasLength size) made.value 0 [] made.holds.1 (omega (arith, made.holds.0)) in
      let out = loop_bytes num_loops 0 made.value size in
      (
        out,
        length-loop_bytes num_loops 0 made.value size made.holds,
        Effect.reshape (append-nil out) refl refl (
            Effect.bind_at s [] _ 0 _ num_buffers _ _ made (
              Effect.bind _ [] _ 0 _ 0 _ _ (sys_now-Effect K _) λ _ c le _.
                Effect.bind _ out _ 0 _ 0 _ _
                  (send_loops-Effect K num_loops 0 made.value size _
                    (Sends-later (omega (arith, made.later)) ok) valid.1)
                  λ _ c' le' _.
                    Effect.bind _ [] [] 1 _ 0 _ _
                      (receive_message-Effect K 1 (get_or made.value 0 []) _ okr (omega arith)
                        (omega (arith, valid.0)) (omega arith))
                      λ _ _ _ _.
                        Effect.bind _ [] [] 0 0 0 0 _ (sys_now-Effect K _)
                          λ _ _ _ _. Effect.returns _ _ tt)),
      )

  latency_tests-Effect :
      (sizes : List ℕ) (s : Process)
      → Sends K s.calls
      → Receives K
      → Random K
      → All IsChunkSize sizes
      → length sizes ≤ length s.inbound
      → (out : List ℕ) × (length out ≡ volume sizes)
        × Effect s out
            (length sizes)
            (length sizes * num_buffers)
            (λ ls. map (λ l. l.buffer_size) ls ≡ sizes)
            (latency_tests K F sizes s)
  unfolding latency_tests
  latency_tests-Effect [] s ok okr rand valid there = ([], refl, Effect.returns s [] refl)
  latency_tests-Effect (size ∷ sizes) s ok okr rand valid there =
      let (bytes, many, test) = latency_test-Effect size s ok okr rand valid.0 (omega arith) in
      let s1 = after s bytes 1 num_buffers test.last in
      let (out, more, rest) =
        latency_tests-Effect sizes s1 (Sends-later test.later ok) okr rand valid.1
          (omega (arith, length-drop 1 s.inbound)) in
      (
        bytes ++ out,
        omega (arith, length-append bytes out),
        Effect.reshape (ap (λ z. bytes ++ z) (append-nil out)) (omega arith) (omega arith) (
            Effect.bind_at s bytes _ 1 _ num_buffers _ _ test (
              Effect.bind_at s1 out _ (length sizes) _ (length sizes * num_buffers) _ _ rest
                (Effect.returns _ _ (ap (◌∷◌ size) rest.holds)))),
      )

  pub run_latency_tests-Effect :
      (s : Process)
      → Sends K s.calls
      → Receives K
      → Random K
      → length latency_buffer_sizes ≤ length s.inbound
      → (out : List ℕ) × (length out ≡ volume latency_buffer_sizes)
        × Effect s out
            (length latency_buffer_sizes)
            (length latency_buffer_sizes * num_buffers)
            (λ ls. map (λ l. l.buffer_size) ls ≡ latency_buffer_sizes)
            (run_latency_tests K F s)
  unfolding run_latency_tests
  run_latency_tests-Effect s ok okr rand there =
      latency_tests-Effect latency_buffer_sizes s ok okr rand latency_buffer_sizes-IsChunkSize there
