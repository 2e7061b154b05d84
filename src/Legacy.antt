-- ===== src/Legacy.antt =====
-- ConnectionExperiments/RunClient.cpp and RunServer.cpp, the first form of the RDMA experiments, which
-- no target builds. Their calls are those of `Rdma.Verbs`.
pub mod Ints
pub mod Client
pub mod Server
pub mod Agreement
pub mod TwoSided
mod Tests
