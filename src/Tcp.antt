-- ===== src/Tcp.antt =====
-- ConnectionExperiments/TcpClient.cpp and TcpServer.cpp.
pub mod Socket
pub mod Setup
pub mod Client
pub mod Server
pub mod Transfer
mod Tests
