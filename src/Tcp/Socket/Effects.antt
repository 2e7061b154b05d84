-- ===== src/Tcp/Socket/Effects.antt =====
-- The effects of the socket operations, for the tests that are made of them.
use native.Mathlib.Nat.{add-zero}
use rdma_project.Common.{
  ℕ, suc, ◌-◌, ◌<◌, ◌≤◌, ◌^◌, ◌≡◌, refl, List, [], take, arith, length, overwrite, append-nil,
}
use rdma_project.Host.{Kernel, Process, sys_now}
use rdma_project.Host.Effect.{Effect}
use rdma_project.Host.Reliable.{Sends, Receives, Patient}
use rdma_project.Host.Waits.{Waits, waits_now}
use rdma_project.Tcp.Socket.{send_tcp_message, receive_message}
use rdma_project.Tcp.Socket.Send.{send_tcp_message-take}
use rdma_project.Tcp.Socket.Receive.{receive_message-overwrite, receive_loop_blocks}

module _ (K : Kernel) where
  pub sys_now-Effect : (s : Process) → Effect s [] 0 0 (λ _. Unit {0}) (sys_now K s)
  unfolding sys_now
  sys_now-Effect s = record {
    value = K.now s.calls;
    last = suc s.calls;
    later = omega arith;
    holds = tt;
    result = rw (append-nil s.outbound, add-zero s.fds) refl;
  }

  pub send_tcp_message-Effect :
      (message : List ℕ) (size : ℕ) (s : Process)
      → Sends K s.calls
      → size < 2 ^ 31
      → Effect s (take size message) 0 0 (λ _. Unit {0}) (send_tcp_message K message size s)
  send_tcp_message-Effect message size s ok small =
      let o = send_tcp_message-take K message size s ok small in
      record {
        value = tt;
        last = o.last;
        later = o.later;
        holds = tt;
        result = rw add-zero o.result;
      }

  pub receive_message-Effect :
      (buffer_size : ℕ) (buffer : List ℕ) (s : Process)
      → Receives K
      → buffer_size < 2 ^ 31
      → buffer_size ≤ length buffer
      → buffer_size ≤ length s.inbound
      → Effect s [] buffer_size 0
          (λ d. d ≡ overwrite 0 (take buffer_size s.inbound) buffer)
          (receive_message K buffer_size buffer s)
  receive_message-Effect buffer_size buffer s ok small room there =
      let o = receive_message-overwrite K ok buffer_size buffer s small room there in
      record {
        value = _;
        last = o.last;
        later = o.later;
        holds = refl;
        result = rw (append-nil s.outbound, add-zero s.fds) o.result;
      }

  -- With nothing to read, a message that is not empty is waited for.
  pub receive_message-Waits :
      (buffer_size : ℕ) (buffer : List ℕ) (s : Process)
      → Patient K
      → 0 < buffer_size
      → s.inbound ≡ []
      → Waits s [] (receive_message K buffer_size buffer s)
  unfolding receive_message
  receive_message-Waits buffer_size buffer s patient pos nothing = waits_now (
      receive_loop_blocks K buffer_size buffer_size 0 buffer s pos
        (rw nothing (patient.waits s.calls (buffer_size - 0) (omega arith))))
