-- ===== src/Udp.antt =====
-- core/udp_server/src: the UDP server, from endpoints and packets up to the session manager.
pub mod Endpoint
pub mod Packet
pub mod Socket
pub mod SessionMap
pub mod SessionManager
pub mod Server
