-- ===== src/Tcp.antt =====
-- The TCP server, core/server: its buffers, its clients, the table of clients and the loops.
pub mod Buffer
pub mod Client
pub mod ClientManager
pub mod Server
