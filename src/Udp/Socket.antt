-- ===== src/Udp/Socket.antt =====
-- core/udp_server/src/socket.hpp and socket.cpp: the constructors of sockets and of the structures
-- that the port hands back. `Recv` and `Send` stand with the manager, whose state they change.
use server_core.Common.{
  ℕ, ◌+◌, ◌%◌, ◌^◌, Bool, true, false, ◌&&◌, Option, none, some, if◌then◌else◌,
}
use server_core.Udp.Endpoint.{Endpoint}
use server_core.Udp.Packet.{Data}

abbrev pub socket_buf_size : ℕ
socket_buf_size = 512

-- `iocp_` tells whether it is not null. A field that no constructor sets is an argument, `junk`.
pub record Socket : Type 0 where
  pub endpoint_ : Option Endpoint
  pub iocp_ : Bool
  pub is_with_iocp_ : Bool

-- `associated` is the answer of `CreateIoCompletionPort`.
abbrev pub on_port : (iocp associated junk : Bool) → Bool
on_port iocp associated junk = if iocp && associated then true else junk

-- The four constructors, in the order of the file; a socket is bound where it has an endpoint.
abbrev pub bound_socket : Endpoint → Socket
bound_socket e = record { endpoint_ = some e; iocp_ = false; is_with_iocp_ = false }

abbrev pub bound_socket_on : Endpoint → (iocp associated junk : Bool) → Socket
bound_socket_on e iocp associated junk = record {
  endpoint_ = some e;
  iocp_ = iocp;
  is_with_iocp_ = on_port iocp associated junk;
}

abbrev pub new_socket : Socket
new_socket = record { endpoint_ = none; iocp_ = false; is_with_iocp_ = false }

-- This one does not keep the port that it is given, and looks at the field.
abbrev pub new_socket_on : (iocp associated junk junk_iocp : Bool) → Socket
new_socket_on iocp associated junk junk_iocp = record {
  endpoint_ = none;
  iocp_ = junk_iocp;
  is_with_iocp_ = on_port junk_iocp associated junk;
}

-- `read_io_data` and `write_io_data`: what `WSARecvFrom` and `WSASendTo` are told of the buffer, and
-- the flag by which a completion tells one from the other. `sockaddr_in` has 16 bytes.
pub record IoData : Type 0 where
  pub len : ℕ
  pub from_len : ℕ
  pub is_read_io_data : Bool

abbrev pub read_io_data : IoData
read_io_data = record { len = socket_buf_size; from_len = 16; is_read_io_data = true }

abbrev pub write_io_data : Data → IoData
write_io_data d = record { len = d.size % 2 ^ 16 + 4; from_len = 0; is_read_io_data = false }
