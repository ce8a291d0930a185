-- ===== src/Net.antt =====
-- net/: a client connection over a non-blocking socket, and the TCP server.
pub mod Run
pub mod Connection
pub mod TcpServer
