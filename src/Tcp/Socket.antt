-- ===== src/Tcp/Socket.antt =====
-- `send_tcp_message` and `receive_message`, which TcpClient.cpp and TcpServer.cpp define alike.
-- A `char*` argument is the list of the bytes from there to the end of its array. The loops run on
-- fuel: enough for every run in which each call makes progress, and for two failed calls more.
pub mod Send
pub mod Receive
pub mod Effects
use rdma_project.Common.{ℕ, zero, suc, ◌-◌, List, drop, ltb, if◌then◌else◌}
use rdma_project.Host.{Kernel, Cmd, pure, exit_failure, out_of_fuel, ◌>>=◌, sys_send, sys_recv}
use rdma_project.Host.Ints.{to_int, is_nonpositive, add_int}

module _ (K : Kernel) where
  -- The `while` of `send_tcp_message`. A failed call is only reported; its -1 is added all the same.
  unfoldable pub send_loop : ℕ → List ℕ → (size bytes_sent : ℕ) → Cmd (Unit {0})
  send_loop zero message size bytes_sent = λ s. out_of_fuel
  send_loop (suc f) message size bytes_sent =
      if ltb bytes_sent size
      then (do
        new_bytes_sent ← sys_send K (drop bytes_sent message) (size - bytes_sent)
        send_loop f message size (add_int bytes_sent (to_int new_bytes_sent)))
      else pure tt

  unfoldable pub send_tcp_message : List ℕ → ℕ → Cmd (Unit {0})
  send_tcp_message message size = send_loop (suc (suc (suc size))) message size 0

  -- The `while` of `receive_message`, with the buffer as it is filled.
  unfoldable pub receive_loop : ℕ → (buffer_size bytes_read : ℕ) → List ℕ → Cmd (List ℕ)
  receive_loop zero buffer_size bytes_read buffer = λ s. out_of_fuel
  receive_loop (suc f) buffer_size bytes_read buffer =
      if ltb bytes_read buffer_size
      then (do
        (new_bytes_read, buffer') ← sys_recv K buffer bytes_read (buffer_size - bytes_read)
        if is_nonpositive (to_int new_bytes_read)
            then exit_failure
            else receive_loop f buffer_size (add_int bytes_read (to_int new_bytes_read)) buffer')
      else pure buffer

  unfoldable pub receive_message : ℕ → List ℕ → Cmd (List ℕ)
  receive_message buffer_size buffer = receive_loop (suc buffer_size) buffer_size 0 buffer
