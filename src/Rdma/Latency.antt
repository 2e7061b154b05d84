-- ===== src/Rdma/Latency.antt =====
-- The latency tests of client and server against one another.
use rdma_project.Common.{refl, sym, subst, [], ◌∷◌, ◌++◌, replicate, arith}
use rdma_project.Settings.{latency_buffer_sizes, num_loops}
use rdma_project.Rdma.Verbs.{send, receive, read, write}
use rdma_project.Rdma.Verbs.Emits.{Any}
use rdma_project.Rdma.Client.Latency as ClientLatency
use rdma_project.Rdma.Client.Latency.{All-Any}
use rdma_project.Rdma.Server.Latency as ServerLatency
use rdma_project.Rdma.System.Dual.{comm, Dual}
use rdma_project.Rdma.Quiet.{
  Dual-comm_append, Dual-calls_for, quiet_lem, comm-replicate, Dual-replicate,
}

-- The client measures alone and then tells the server, which waits.
pub Dual-read_run : Dual (comm ClientLatency.read_run) (comm ServerLatency.read_run)
Dual-read_run =
    subst (λ z. Dual z (receive 1 ∷ []))
      (sym (
        quiet_lem ClientLatency.read_calls latency_buffer_sizes
          (λ size. comm-replicate (read 0 0 size) num_loops refl)))
      (omega arith, tt)

pub Dual-write_run : Dual (comm ClientLatency.write_run) (comm ServerLatency.write_run)
Dual-write_run =
    subst (λ z. Dual z (receive 1 ∷ []))
      (sym (
        quiet_lem ClientLatency.write_calls latency_buffer_sizes
          (λ size. comm-replicate (write 0 0 size) num_loops refl)))
      (omega arith, tt)

Dual-two_sided_run : Dual (comm ClientLatency.two_sided_run) (comm ServerLatency.two_sided_run)
Dual-two_sided_run =
    Dual-calls_for Any ClientLatency.two_sided_calls ServerLatency.two_sided_calls
      latency_buffer_sizes
      (λ size _. (
        omega arith,
        Dual-comm_append (replicate num_loops (send 0 size)) (replicate num_loops (receive size))
            (send 0 1 ∷ []) (receive 1 ∷ []) (Dual-replicate num_loops size) (omega arith, tt),
      ))
      (All-Any latency_buffer_sizes)

pub Dual-latency_runs :
    Dual
      (comm (ClientLatency.read_run ++ (ClientLatency.write_run ++ ClientLatency.two_sided_run)))
      (comm (ServerLatency.read_run ++ (ServerLatency.write_run ++ ServerLatency.two_sided_run)))
Dual-latency_runs =
    Dual-comm_append ClientLatency.read_run ServerLatency.read_run
      (ClientLatency.write_run ++ ClientLatency.two_sided_run)
      (ServerLatency.write_run ++ ServerLatency.two_sided_run) Dual-read_run
      (Dual-comm_append ClientLatency.write_run ServerLatency.write_run ClientLatency.two_sided_run
        ServerLatency.two_sided_run Dual-write_run Dual-two_sided_run)
