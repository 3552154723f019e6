-- ===== src/Udp/Server.antt =====
-- core/udp_server/src/server.hpp and server.cpp: the server, which forwards to its session manager.
pub mod Start
mod Examples
use server_core.Common.{ℕ, ◌%◌, ◌^◌, Bool, true, false, Option, none, some, if◌then◌else◌}
use server_core.Udp.Packet.{Data}
use server_core.Udp.SessionManager.{Manager, Session, Handler, new_manager}
use server_core.Udp.SessionManager

-- `num_thread` is the `num_thread_` of the session manager, an `int` that is not negative, and `num_thread_` the short.
pub record Server : Type 0 where
  pub session_manager_ : Manager
  pub num_thread : ℕ
  pub port_ : ℕ
  pub num_thread_ : ℕ

-- The constructor; the arguments of `new_manager` are what Windows answers and what memory held.
unfoldable pub new_server :
    (iocp associated junk : Bool) → (ℕ → Session) → Data → (port num_thread : ℕ) → Server
new_server iocp associated junk heap recycled port num_thread = record {
  session_manager_ = new_manager iocp associated junk heap recycled;
  num_thread = num_thread;
  port_ = port;
  num_thread_ = num_thread % 2 ^ 16;
}

-- `SetAcceptHandler`, `SetDisconnectHandler` and `SetPacketHandler`
unfoldable pub set_handler : Server → Handler → Server
set_handler s h = record s { session_manager_ = SessionManager.set_handler s.session_manager_ h }

unfoldable pub run_non_block : Server → Bool × Server
run_non_block s =
    let r = SessionManager.run s.num_thread s.session_manager_ in
    (r.0, record s { session_manager_ = r.1 })

-- `Run`: none if it never returns, as it does not after `while (1)`.
unfoldable pub run : Server → Option (Bool × Server)
run s =
    let r = SessionManager.run s.num_thread s.session_manager_ in
    if r.0 then none else some (false, record s { session_manager_ = r.1 })
