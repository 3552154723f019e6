-- ===== src/Udp/SessionManager/Delivery/Examples.antt =====
-- The theorem on delivery, at a packet of two bytes.
use server_core.Common.{replicate}
use server_core.Udp.Packet.{Data, max_packet_size}
use server_core.Udp.Socket.{socket_buf_size}
use server_core.Udp.SessionManager.{Manager}
use server_core.Udp.SessionManager.Threads.{Receiver}
use server_core.Udp.SessionManager.Examples.{busy}

-- Packet memory of full size.
abbrev full : Data
full = record { size = 0; packet_type = 0; body = replicate max_packet_size 0 }

abbrev listening : Manager
listening = record (busy 3) { recycled = full }

-- Every buffer has its 512 bytes.
abbrev receiver : Receiver
receiver = record { manager = listening; buffers = λ a. replicate socket_buf_size 1 }
