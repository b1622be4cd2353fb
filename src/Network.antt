-- ===== src/Network.antt =====
-- The library in network/: sockets, the poller, connections, the server and its event loop.
pub mod TcpSocket
pub mod Poller
pub mod TcpServer
pub mod EventLoop
pub mod TcpConnection
pub mod ChatServer
