-- ===== src/Program/Tcp.antt =====
-- The two programs over TCP: the tests that `main` of ConnectionExperiments/main.cpp starts, run by
-- the classes of the TCP connection.
pub mod Transfer
pub mod Waits
pub mod Exchange
mod Tests
use rdma_project.Common.{ℕ, List, [], ◌∷◌}
use rdma_project.Cli.{Task, throughput_tests, latency_tests}
use rdma_project.Host.{Kernel, Cmd, pure, ◌>>◌}
use rdma_project.Measure.{Floating}
use rdma_project.Tcp.Client
use rdma_project.Tcp.Server

unfoldable pub run_tcp_client : (K : Kernel) (F : Floating) → List Task → Cmd (Unit {0})
run_tcp_client K F [] = pure tt
run_tcp_client K F (throughput_tests size ∷ ts) = do
  Client.run_throughput_tests K F size
  run_tcp_client K F ts
run_tcp_client K F (latency_tests ∷ ts) = do Client.run_latency_tests K F; run_tcp_client K F ts

unfoldable pub run_tcp_server : (K : Kernel) → List Task → Cmd (Unit {0})
run_tcp_server K [] = pure tt
run_tcp_server K (throughput_tests size ∷ ts) = do
  Server.run_throughput_tests K size
  run_tcp_server K ts
run_tcp_server K (latency_tests ∷ ts) = do Server.run_latency_tests K; run_tcp_server K ts
