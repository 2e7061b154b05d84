-- ===== src/Rdma/Setup.antt =====
-- The constructors of RdmaClient and RdmaServer in ConnectionExperiments/RdmaClient.cpp and
-- RdmaServer.cpp. The objects of infinity that they make have no part here; none is the exception of
-- `std::stoi`.
use Prim.Native.String.{String}
use mathlib.Core.Option as Option
use rdma_project.Common.{ℕ, Option}
use rdma_project.Cli.{Conversions}

-- The members that are not objects of infinity.
pub record RdmaClient : Type 0 where
  pub server_ip : String
  pub server_port : ℕ

module _ (C : Conversions) where
  unfoldable pub make_rdma_client : (ip port : String) → Option RdmaClient
  make_rdma_client ip port =
      Option.map (λ server_port. record { server_ip = ip; server_port = server_port }) (C.stoi port)

  -- The port that `bindToPort` is called with.
  unfoldable pub make_rdma_server : (port : String) → Option ℕ
  make_rdma_server port = C.stoi port
