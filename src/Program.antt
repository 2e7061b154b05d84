-- ===== src/Program.antt =====
-- The two programs together: the tests that `main` of ConnectionExperiments/main.cpp starts, run by
-- the classes of the RDMA connection.
pub mod Safety
pub mod Ports
pub mod Tcp
mod Tests
use rdma_project.Common.{ℕ, List, [], ◌∷◌}
use rdma_project.Cli.{Task, throughput_tests, latency_tests}
use rdma_project.Measure.{Floating}
use rdma_project.Rdma.Verbs.{Test, pure, ◌>>◌}
use rdma_project.Rdma.Client
use rdma_project.Rdma.Server

-- `client->run_throughput_tests(data_size)` and `client->run_latency_tests()`, as `main` calls them.
unfoldable pub run_client : (clock : ℕ → ℕ) (F : Floating) → List Task → Test (Unit {0})
run_client clock F [] = pure tt
run_client clock F (throughput_tests size ∷ ts) = do
  Client.run_throughput_tests clock F size
  run_client clock F ts
run_client clock F (latency_tests ∷ ts) = do Client.run_latency_tests clock F; run_client clock F ts

unfoldable pub run_server : List Task → Test (Unit {0})
run_server [] = pure tt
run_server (throughput_tests size ∷ ts) = do Server.run_throughput_tests size; run_server ts
run_server (latency_tests ∷ ts) = do Server.run_latency_tests; run_server ts
