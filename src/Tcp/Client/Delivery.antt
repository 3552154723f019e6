-- ===== src/Tcp/Client/Delivery.antt =====
-- Packets from one client's `Send` to the other's receive handler, where each arrives whole: one
-- receive completes for all its bytes.
use server_core.Common.{
  ℕ, ◌+◌, ◌≤◌, ◌<◌, ◌≡◌, refl, ap, sym, ◌∙◌, subst, true, List, [], ◌∷◌, ◌++◌, Option, some, length,
  take, drop, ◌>>=◌, arith, take-append,
}
use server_core.Tcp.Buffer.{write_at}
use server_core.Tcp.Client.{
  Client, Event, recv_ready, recv, sent, disconnect, handled, recv_buffer_size, post_receive,
}
use server_core.Tcp.Client.Receive.{
  IsIdle, seen, taken_off, is_handled, after_receive, post_receive_lem,
}
use server_core.Tcp.Client.Send.{
  filled, filled-IsIdle, write_at-filled, send_all, transcript, AllFit, send_all_lem,
}

-- What a completed `WSARecv` has written, from the offset of the receive buffer on.
unfoldable pub arrives : Client → List ℕ → Option Client
arrives c bytes = do
  mem ← write_at c.recv_buffer_.buffer_ c.recv_buffer_.offset_ bytes
  some (record c { recv_buffer_ = record (c.recv_buffer_) { buffer_ = mem } })

unfoldable pub receive_whole : (header : ℕ) → Client → List ℕ → Option Client
receive_whole header c bytes = do come ← arrives c bytes; post_receive header come (length bytes)

pub receive_all : (header : ℕ) → Client → List (List ℕ) → Option Client
receive_all header c [] = some c
receive_all header c (bytes ∷ packets) = do
  next ← receive_whole header c bytes
  receive_all header next packets

abbrev pub first_byte : List ℕ → ℕ
first_byte [] = 0
first_byte (byte ∷ bytes) = byte

-- A header whose first byte is the number of the bytes behind it, up to 127.
pub record IsPacket (header : ℕ) (bytes : List ℕ) : Type 0 where
  pub some_byte : 0 < length bytes
  pub small : first_byte bytes < 128
  pub whole : length bytes ≡ header + first_byte bytes

abbrev pub ArePackets : (header : ℕ) → List (List ℕ) → Type 0
ArePackets header [] = Unit {0}
ArePackets header (bytes ∷ packets) = IsPacket header bytes × ArePackets header packets

-- The bytes of the requests that were posted, and of the packets that the handler was called with,
-- newest first.
abbrev pub sent_bytes : List Event → List (List ℕ)
sent_bytes [] = []
sent_bytes (sent bytes ∷ es) = bytes ∷ sent_bytes es
sent_bytes (recv_ready ∷ es) = sent_bytes es
sent_bytes (recv at len ∷ es) = sent_bytes es
sent_bytes (disconnect ∷ es) = sent_bytes es
sent_bytes (handled b ∷ es) = sent_bytes es

abbrev pub handled_bytes : List Event → List (List ℕ)
handled_bytes [] = []
handled_bytes (handled b ∷ es) = take b.offset_ b.buffer_ ∷ handled_bytes es
handled_bytes (sent bytes ∷ es) = handled_bytes es
handled_bytes (recv_ready ∷ es) = handled_bytes es
handled_bytes (recv at len ∷ es) = handled_bytes es
handled_bytes (disconnect ∷ es) = handled_bytes es

abbrev pub in_order : List (List ℕ) → List (List ℕ) → List (List ℕ)
in_order [] before = before
in_order (bytes ∷ packets) before = in_order packets (bytes ∷ before)

sent_bytes-transcript :
    (packets : List (List ℕ)) (es : List Event)
    → sent_bytes (transcript packets es) ≡ in_order packets (sent_bytes es)
sent_bytes-transcript [] es = refl
sent_bytes-transcript (bytes ∷ packets) es = sent_bytes-transcript packets (sent bytes ∷ es)

packets-fit :
    (header size : ℕ) (packets : List (List ℕ))
    → header + 127 ≤ size
    → ArePackets header packets
    → AllFit size packets
packets-fit header size [] h ps = tt
packets-fit header size (bytes ∷ packets) h (p, ps) =
    (omega (arith, p.small, p.whole), packets-fit header size packets h ps)

arrives_idle :
    (c : Client) (bytes : List ℕ)
    → IsIdle c.recv_buffer_
    → length bytes ≤ c.recv_buffer_.size_
    → arrives c bytes ≡ some (record c { recv_buffer_ = filled c.recv_buffer_ bytes })
unfolding arrives
arrives_idle c bytes i h = rw (write_at-filled c.recv_buffer_ bytes i h, ◌>>=◌) refl

-- The client when the handler has had the packet.
abbrev after_packet : Client → List ℕ → Client
after_packet c bytes = record c {
  recv_buffer_ = taken_off (filled c.recv_buffer_ bytes) (length bytes);
  events = handled (seen (filled c.recv_buffer_ bytes) (length bytes)) ∷ c.events;
}

receive_whole_lem :
    (header : ℕ) (c : Client) (bytes : List ℕ)
    → IsIdle c.recv_buffer_
    → header + 127 ≤ c.recv_buffer_.size_
    → header + 127 ≤ recv_buffer_size
    → IsPacket header bytes
    → (receive_whole header c bytes ≡ some (after_packet c bytes))
      × IsIdle (after_packet c bytes).recv_buffer_
unfolding receive_whole
receive_whole_lem header c [] i fits small p = absurd (omega (arith, p.some_byte))
receive_whole_lem header c (byte ∷ bytes) i fits small p =
    let whole = byte ∷ bytes in
    let room : length whole ≤ c.recv_buffer_.size_ = omega (arith, p.small, p.whole, fits) in
    let come : Client = record c { recv_buffer_ = filled c.recv_buffer_ whole } in
    let here : is_handled byte (length whole) ≡ true = ground (arith, p.small, p.whole) in
    let (took, idle) =
      post_receive_lem header byte (length whole)
        (bytes ++ drop (length whole) c.recv_buffer_.buffer_) come
        (filled-IsIdle c.recv_buffer_ whole room i) refl (omega (arith, p.small))
        (omega (arith, p.small, p.whole, small)) fits in
    let same : after_receive header byte (length whole) come ≡ after_packet c whole = rw here (
      ap
        (λ (k : ℕ). record come {
          recv_buffer_ = taken_off come.recv_buffer_ k;
          events = handled (seen come.recv_buffer_ k) ∷ c.events;
        })
        (sym p.whole)) in
    (
      rw (arrives_idle c whole i room, ◌>>=◌) took ∙ ap some same,
      subst (λ (d : Client). IsIdle d.recv_buffer_) same idle,
    )

receive_all_lem :
    (header : ℕ) (packets : List (List ℕ)) (c : Client)
    → IsIdle c.recv_buffer_
    → header + 127 ≤ c.recv_buffer_.size_
    → header + 127 ≤ recv_buffer_size
    → ArePackets header packets
    → (d : Client) × (receive_all header c packets ≡ some d)
      × (handled_bytes d.events ≡ in_order packets (handled_bytes c.events))
      × IsIdle d.recv_buffer_
unfolding receive_all
receive_all_lem header [] c i fits small ps = (c, refl, refl, i)
receive_all_lem header (bytes ∷ packets) c i fits small (p, ps) =
    let (one, idle) = receive_whole_lem header c bytes i fits small p in
    let (d, e, heard, idle') =
      receive_all_lem header packets (after_packet c bytes) idle fits small ps in
    let front : take (length bytes) (bytes ++ drop (length bytes) c.recv_buffer_.buffer_) ≡ bytes =
      take-append bytes (drop (length bytes) c.recv_buffer_.buffer_) in
    (
      d,
      rw (one, ◌>>=◌) e,
      heard ∙ ap (λ (bs : List ℕ). in_order packets (bs ∷ handled_bytes c.events)) front,
      idle',
    )

-- Packets whose first byte is the number of bytes behind their header, up to 127, sent one after
-- another by a client with an idle send buffer and each completed in full before the next, go out
-- as requests of exactly their bytes, in order; and when each arrives whole at a client with an
-- idle receive buffer, its handler is called once for each, in the same order, with exactly the
-- packet's bytes between the start of the buffer and its offset. No call faults, where both buffers
-- have room for a header and 127 bytes, and both are idle again.
pub packets_delivered :
    (header : ℕ) (packets : List (List ℕ)) (sender receiver : Client)
    → IsIdle sender.send_buffer_
    → IsIdle receiver.recv_buffer_
    → header + 127 ≤ sender.send_buffer_.size_
    → header + 127 ≤ receiver.recv_buffer_.size_
    → header + 127 ≤ recv_buffer_size
    → ArePackets header packets
    → (sender' receiver' : Client) × (send_all sender packets ≡ some sender')
      × (sent_bytes sender'.events ≡ in_order packets (sent_bytes sender.events))
      × IsIdle sender'.send_buffer_
      × (receive_all header receiver packets ≡ some receiver')
      × (handled_bytes receiver'.events ≡ in_order packets (handled_bytes receiver.events))
      × IsIdle receiver'.recv_buffer_
packets_delivered header packets sender receiver i j room fits small ps =
    let (sender', e, said, idle) =
      send_all_lem packets sender i
        (packets-fit header sender.send_buffer_.size_ packets room ps) in
    let (receiver', r, heard, idle') = receive_all_lem header packets receiver j fits small ps in
    (
      sender',
      receiver',
      e,
      ap sent_bytes said ∙ sent_bytes-transcript packets sender.events,
      idle,
      r,
      heard,
      idle',
    )
