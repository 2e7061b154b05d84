-- ===== src/Program/Tcp/Waits.antt =====
-- How far the two programs get on a part of what they wait for.
use Prim.Native.Nat.{min}
use rdma_project.Common.{
  ℕ, suc, ◌+◌, ◌-◌, ◌*◌, ◌<◌, ◌≡◌, refl, ap, ◌∙◌, List, [], ◌∷◌, ◌++◌, arith, length, replicate,
  take, take_all, dec_lt, length-append, length-drop, replicate-append,
}
use rdma_project.Settings.{
  buffer_sizes-IsChunkSize, latency_buffer_sizes-IsChunkSize, buffer_sizes, latency_buffer_sizes,
}
use rdma_project.Cli.{Task, throughput_tests, latency_tests}
use rdma_project.Host.{Kernel, Process}
use rdma_project.Host.Effect.{after}
use rdma_project.Host.Reliable.{Sends, Sends-later, Receives, Patient}
use rdma_project.Host.Waits
use rdma_project.Host.Waits.{Waits}
use rdma_project.Measure.{Floating}
use rdma_project.Utils.RandomData.{Random}
use rdma_project.Tcp.Client.{num_buffers}
use rdma_project.Tcp.Client.Sent.{run_throughput_tests-Effect}
use rdma_project.Tcp.Client.Latency.{volume, run_latency_tests-Effect}
use rdma_project.Tcp.Client.Waits.{run_throughput_tests-Waits, run_latency_tests-Waits}
use rdma_project.Tcp.Server
use rdma_project.Tcp.Server.Received as Received
use rdma_project.Tcp.Server.Latency as ServerLatency
use rdma_project.Tcp.Server.Waits as ServerWaits
use rdma_project.Program.Tcp.{run_tcp_client, run_tcp_server}
use rdma_project.Program.Tcp.Transfer.{HasRoom, bytes_of, replies_of}

-- The bytes of the first `k` tests of some tasks.
abbrev pub bytes_until : List Task → (k : ℕ) → ℕ
bytes_until [] k = 0
bytes_until (throughput_tests n ∷ ts) k =
    min k (length buffer_sizes) * n + bytes_until ts (k - length buffer_sizes)
bytes_until (latency_tests ∷ ts) k =
    volume (take k latency_buffer_sizes) + bytes_until ts (k - length latency_buffer_sizes)

bytes_until_zero : (ts : List Task) (k : ℕ) → k ≡ 0 → bytes_until ts k ≡ 0
bytes_until_zero [] k e = refl
bytes_until_zero (throughput_tests n ∷ ts) k e =
    let none_yet : min 0 (length buffer_sizes) ≡ 0 = omega arith in
    rw e (
      omega (
        arith,
        ap (λ m. m * n) none_yet,
        bytes_until_zero ts (0 - length buffer_sizes) (omega arith),
      ))
bytes_until_zero (latency_tests ∷ ts) k e =
    rw e (omega (arith, bytes_until_zero ts (0 - length latency_buffer_sizes) (omega arith)))

pub bytes_until-bytes_of : (ts : List Task) → bytes_until ts (replies_of ts) ≡ bytes_of ts
bytes_until-bytes_of [] = refl
bytes_until-bytes_of (throughput_tests n ∷ ts) =
    let more : length buffer_sizes + replies_of ts - length buffer_sizes ≡ replies_of ts =
      omega arith in
    let whole : min (length buffer_sizes + replies_of ts) (length buffer_sizes)
        ≡ length buffer_sizes =
      omega arith in
    rw (more, whole) (ap (λ z. length buffer_sizes * n + z) (bytes_until-bytes_of ts))
bytes_until-bytes_of (latency_tests ∷ ts) =
    let l = length latency_buffer_sizes in
    let more : l + replies_of ts - l ≡ replies_of ts = omega arith in
    rw (more, take_all (l + replies_of ts) latency_buffer_sizes (omega arith))
      (ap (λ z. volume latency_buffer_sizes + z) (bytes_until-bytes_of ts))

module _ (K : Kernel) (F : Floating) (okr : Receives K) (patient : Patient K)
    (rand : Random K) where
  pub run_tcp_client-Waits :
      (k : ℕ) (ts : List Task) (s : Process)
      → Sends K s.calls
      → HasRoom ts
      → length s.inbound ≡ k
      → k < replies_of ts
      → (out : List ℕ) × (length out ≡ bytes_until ts (suc k))
        × Waits s out (run_tcp_client K F ts s)
  unfolding run_tcp_client
  run_tcp_client-Waits k [] s ok room e lt = absurd (omega (arith, lt))
  run_tcp_client-Waits k (throughput_tests n ∷ ts) s ok room e lt =
      let l = length buffer_sizes in
      elim (dec_lt k l) [
        | yes inside ↦
            let (out, many, w) =
              run_throughput_tests-Waits K F patient k n s ok okr rand room.0.0 room.0.1 e inside in
            let whole : min (suc k) l ≡ suc k = omega (arith, inside) in
            (
              out,
              rw whole
                  (omega (arith, many, bytes_until_zero ts (suc k - l) (omega (arith, inside)))),
              Waits.in_first _ w,
            )
        | no behind ↦
            let (out, many, first) =
              run_throughput_tests-Effect K F n s ok okr rand room.0.0 room.0.1
                (omega (arith, e, behind)) in
            let t = after s out l (1 + l) first.last in
            let (more, counted, w) =
              run_tcp_client-Waits (k - l) ts t (Sends-later first.later ok) room.1
                (omega (arith, e, length-drop l s.inbound)) (omega (arith, lt, behind)) in
            let whole : min (suc k) l ≡ l = omega (arith, behind) in
            let left : suc k - l ≡ suc (k - l) = omega (arith, behind) in
            (
              out ++ more,
              rw (whole, left) (omega (arith, many, counted, length-append out more)),
              Waits.bind_at s out more l (1 + l) (λ unused. run_tcp_client K F ts) first w,
            )
      ]
  run_tcp_client-Waits k (latency_tests ∷ ts) s ok room e lt =
      let l = length latency_buffer_sizes in
      elim (dec_lt k l) [
        | yes inside ↦
            let (out, many, w) = run_latency_tests-Waits K F patient k s ok okr rand e inside in
            (
              out,
              omega (arith, many, bytes_until_zero ts (suc k - l) (omega (arith, inside))),
              Waits.in_first _ w,
            )
        | no behind ↦
            let (out, many, first) =
              run_latency_tests-Effect K F s ok okr rand (omega (arith, e, behind)) in
            let t = after s out l (l * num_buffers) first.last in
            let (more, counted, w) =
              run_tcp_client-Waits (k - l) ts t (Sends-later first.later ok) room
                (omega (arith, e, length-drop l s.inbound)) (omega (arith, lt, behind)) in
            let left : suc k - l ≡ suc (k - l) = omega (arith, behind) in
            (
              out ++ more,
              rw (take_all (suc k) latency_buffer_sizes (omega (arith, behind)), left)
                  (omega (arith, many, counted, length-append out more)),
              Waits.bind_at s out more l (l * num_buffers) (λ unused. run_tcp_client K F ts) first
                  w,
            )
      ]

module _ (K : Kernel) (okr : Receives K) (patient : Patient K) where
  pub run_tcp_server-Waits :
      (k : ℕ) (ts : List Task) (s : Process)
      → Sends K s.calls
      → HasRoom ts
      → length s.inbound ≡ bytes_until ts k
      → k < replies_of ts
      → Waits s (replicate k b'y') (run_tcp_server K ts s)
  unfolding run_tcp_server Server.run_throughput_tests Server.run_latency_tests
  run_tcp_server-Waits k [] s ok room e lt = absurd (omega (arith, lt))
  run_tcp_server-Waits k (throughput_tests n ∷ ts) s ok room e lt =
      let l = length buffer_sizes in
      elim (dec_lt k l) [
        | yes inside ↦
            let whole : min k l ≡ k = omega (arith, inside) in
            let only = bytes_until_zero ts (k - l) (omega (arith, inside)) in
            Waits.in_first _ (
              ServerWaits.throughput_tests-Waits K okr patient k buffer_sizes n s ok
                buffer_sizes-IsChunkSize room.0.0 room.0.1
                (omega (arith, e, only, ap (λ m. m * n) whole)) inside)
        | no behind ↦
            let whole : min k l ≡ l = omega (arith, behind) in
            let sum : l + (k - l) ≡ k = omega (arith, behind) in
            let there = ap (λ m. m * n) whole in
            Waits.reshape (replicate-append l (k - l) b'y' ∙ ap (λ m. replicate m b'y') sum) (
              Waits.bind s (replicate l b'y') (replicate (k - l) b'y') (l * n) 0 _
                (Received.throughput_tests-Effect K okr buffer_sizes n s ok buffer_sizes-IsChunkSize
                  room.0.1 (omega (arith, e, there)))
                λ unused c le _.
                  run_tcp_server-Waits (k - l) ts _ (Sends-later le ok) room.1
                    (omega (arith, e, there, length-drop (l * n) s.inbound))
                    (omega (arith, lt, behind)))
      ]
  run_tcp_server-Waits k (latency_tests ∷ ts) s ok room e lt =
      let l = length latency_buffer_sizes in
      elim (dec_lt k l) [
        | yes inside ↦
            let only = bytes_until_zero ts (k - l) (omega (arith, inside)) in
            Waits.in_first _ (
              ServerWaits.latency_tests-Waits K okr patient k latency_buffer_sizes s ok
                latency_buffer_sizes-IsChunkSize (omega (arith, e, only)) inside)
        | no behind ↦
            let sum : l + (k - l) ≡ k = omega (arith, behind) in
            let there = ap volume (take_all k latency_buffer_sizes (omega (arith, behind))) in
            Waits.reshape (replicate-append l (k - l) b'y' ∙ ap (λ m. replicate m b'y') sum) (
              Waits.bind s (replicate l b'y') (replicate (k - l) b'y') (volume latency_buffer_sizes)
                0 _
                (ServerLatency.latency_tests-Effect K okr latency_buffer_sizes s ok
                  latency_buffer_sizes-IsChunkSize (omega (arith, e, there)))
                λ unused c le _.
                  run_tcp_server-Waits (k - l) ts _ (Sends-later le ok) room
                    (omega (arith, e, there, length-drop (volume latency_buffer_sizes) s.inbound))
                    (omega (arith, lt, behind)))
      ]
