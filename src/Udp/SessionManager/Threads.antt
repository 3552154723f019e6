-- ===== src/Udp/SessionManager/Threads.antt =====
-- core/udp_server/src/session_manager.cpp:148-155 and socket.hpp: the receive buffers, by address. The
-- detached thread of a packet refers to its session and its buffer, which the I/O thread gives back
-- and which the next receive may be given. The local variables that the thread captures by reference
-- are taken to keep their values after the end of their block.
use server_core.Common.{
  ℕ, ◌≡◌, ◌≢◌, refl, ◌∙◌, List, [], ◌∷◌, ◌++◌, ◌==◌, if◌then◌else◌, drop, length, arith,
}
use server_core.Udp.Endpoint.{Endpoint}
use server_core.Udp.SessionManager.{Manager, read, written, failed_read, iocp_task}
use server_core.Udp.SessionManager.Loops.{sweep, reap}

-- `buffers` has the 512 bytes of the buffer at each address.
pub record Receiver : Type 0 where
  pub manager : Manager
  pub buffers : ℕ → List ℕ

-- A datagram over the front of a buffer: behind it stands what stood there.
abbrev pub refill : (datagram buffer : List ℕ) → List ℕ
refill datagram buffer = datagram ++ drop (length datagram) buffer

-- A receive into the buffer at `a` has completed, and `iocp_task` makes its round on it.
unfoldable pub arrive : Receiver → (a : ℕ) → Endpoint → (datagram : List ℕ) → (fresh : ℕ) → Receiver
arrive r a e datagram fresh =
    let buffer = refill datagram (r.buffers a) in
    record {
      manager = iocp_task r.manager (read (length datagram) e buffer) fresh;
      buffers = λ b. if b == a then buffer else r.buffers b;
    }

-- What the manager's threads do before a detached thread runs: rounds of `iocp_task` on a datagram, a
-- completed send or a failed receive, and the loops of the heartbeat thread. A timeout and a failed
-- send change nothing.
pub data Turn : Type 0 where
  arrives : (a : ℕ) → Endpoint → (datagram : List ℕ) → (fresh : ℕ) → Turn
  writes : (bytes : ℕ) → Turn
  fails sweeps reaps : Turn

abbrev pub turn : Receiver → Turn → Receiver
turn r (arrives a e datagram fresh) = arrive r a e datagram fresh
turn r (writes bytes) = record r { manager = iocp_task r.manager (written bytes) 0 }
turn r fails = record r { manager = iocp_task r.manager failed_read 0 }
turn r sweeps = record r { manager = sweep r.manager }
turn r reaps = record r { manager = reap r.manager }

abbrev pub turns : Receiver → List Turn → Receiver
turns r [] = r
turns r (t ∷ ts) = turns (turn r t) ts

-- No datagram arrives in the buffer at `a`.
abbrev pub Spares : (a : ℕ) → List Turn → Type 0
Spares a [] = Unit
Spares a (arrives b e datagram fresh ∷ ts) = (a ≢ b) × Spares a ts
Spares a (writes bytes ∷ ts) = Spares a ts
Spares a (fails ∷ ts) = Spares a ts
Spares a (sweeps ∷ ts) = Spares a ts
Spares a (reaps ∷ ts) = Spares a ts

pub arrive-at :
    (r : Receiver) (a : ℕ) (e : Endpoint) (datagram : List ℕ) (fresh : ℕ)
    → (arrive r a e datagram fresh).buffers a ≡ refill datagram (r.buffers a)
unfolding arrive
arrive-at r a e datagram fresh = ground arith

arrive-elsewhere :
    (r : Receiver) (a b : ℕ) (e : Endpoint) (datagram : List ℕ) (fresh : ℕ)
    → a ≢ b
    → (arrive r b e datagram fresh).buffers a ≡ r.buffers a
unfolding arrive
arrive-elsewhere r a b e datagram fresh ne = ground (arith, ne)

pub turns-at :
    (r : Receiver) (a : ℕ) (ts : List Turn) → Spares a ts → (turns r ts).buffers a ≡ r.buffers a
turns-at r a [] h = refl
turns-at r a (arrives b e datagram fresh ∷ ts) h =
    turns-at (arrive r b e datagram fresh) a ts h.1 ∙ arrive-elsewhere r a b e datagram fresh h.0
turns-at r a (writes bytes ∷ ts) h = turns-at (turn r (writes bytes)) a ts h
turns-at r a (fails ∷ ts) h = turns-at (turn r fails) a ts h
turns-at r a (sweeps ∷ ts) h = turns-at (turn r sweeps) a ts h
turns-at r a (reaps ∷ ts) h = turns-at (turn r reaps) a ts h
