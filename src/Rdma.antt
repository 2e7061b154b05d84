-- ===== src/Rdma.antt =====
-- ConnectionExperiments/RdmaClient.cpp and RdmaServer.cpp.
pub mod Verbs
pub mod Setup
pub mod Client
pub mod Server
pub mod Results
pub mod System
pub mod Quiet
pub mod Agreement
pub mod Latency
pub mod Surplus
pub mod Memory
pub mod Bounds
pub mod Exclusive
mod Tests
