-- ===== src/Udp/SessionManager/Delivery/Overtaken.antt =====
-- session_manager.cpp:148-155: the detached thread refers to the buffer, which the I/O thread gives
-- back, and which the pool hands out first to the receive that follows. Two packets in one buffer.
use server_core.Udp.Endpoint.{Endpoint}
