-- ===== src/Tcp/Client/Receive.antt =====
-- `PostReceive` on an idle receive buffer, whatever bytes have come.
use server_core.Common.{
  ℕ, ◌+◌, ◌-◌, ◌^◌, ◌≤◌, ◌<◌, ◌≡◌, refl, ap, ◌∙◌, Bool, true, false, ◌&&◌, List, ◌∷◌, ◌++◌, some,
  if◌then◌else◌, ltb, leb, length, drop, ◌>>=◌, arith, length-append, length-drop, Bool-cases, inl,
  inr,
}
use server_core.Tcp.Buffer.{Buffer, minus32, consume, produce}
use server_core.Tcp.Buffer.Moves.{consume_all}
use server_core.Tcp.Client.{
  Client, handled, recv_buffer_size, widen, packet_size, post_receive, handle_packet,
}

-- Between two receives.
pub record IsIdle (b : Buffer) : Type 0 where
  pub memory : length b.buffer_ ≡ b.size_
  pub small : b.size_ < 2 ^ 31
  pub at_start : b.offset_ ≡ 0
  pub head : b.head_ ≡ 0
  pub unlocked : b.is_locked ≡ false

-- The buffer that the handler sees, for a packet of `n` bytes with its header.
abbrev pub seen : Buffer → ℕ → Buffer
seen b n = record b { offset_ = n; is_locked = true }

-- The buffer when the packet has been taken off.
abbrev pub taken_off : Buffer → ℕ → Buffer
taken_off b n = record b { buffer_ = drop n b.buffer_ ++ drop (b.size_ - n) b.buffer_ }

pub taken_off-IsIdle : (b : Buffer) (n : ℕ) → n ≤ b.size_ → IsIdle b → IsIdle (taken_off b n)
taken_off-IsIdle b n h i = record {
  memory = omega (
    arith,
    length-append (drop n b.buffer_) (drop (b.size_ - n) b.buffer_),
    length-drop n b.buffer_,
    length-drop (b.size_ - n) b.buffer_,
    i.memory,
  );
  small = i.small;
  at_start = i.at_start;
  head = i.head;
  unlocked = i.unlocked;
}

pub produce_idle : (b : Buffer) (n : ℕ) → n ≤ b.size_ → IsIdle b → produce b n ≡ some (seen b n)
unfolding produce
produce_idle b n h i =
    rw (i.unlocked, i.at_start)
      (ap (λ (k : ℕ). some (record b { offset_ = k; is_locked = true })) (omega (arith, i.small)))

pub consume-seen :
    (b : Buffer) (n : ℕ) → n ≤ b.size_ → IsIdle b → consume (seen b n) n ≡ some (taken_off b n)
consume-seen b n h i =
    consume_all (seen b n) n
      (record { memory = i.memory; small = omega (arith, i.small); within = h }) refl
    ∙ ground (arith, i.at_start, i.head, i.unlocked)

handle_packet_lem :
    (c : Client) (n : ℕ)
    → n ≤ c.recv_buffer_.size_
    → IsIdle c.recv_buffer_
    → handle_packet c n
      ≡ some (record c {
        recv_buffer_ = taken_off c.recv_buffer_ n;
        events = handled (seen c.recv_buffer_ n) ∷ c.events;
      })
unfolding handle_packet
handle_packet_lem c n h i =
    rw (produce_idle c.recv_buffer_ n h i, consume-seen c.recv_buffer_ n h i) refl

-- The packet is handed on: its first byte is its size, up to 127, and so many bytes have come.
abbrev pub is_handled : ℕ → ℕ → Bool
is_handled byte received_bytes = ltb byte 128 && leb byte received_bytes

abbrev pub after_receive : (header byte received_bytes : ℕ) → Client → Client
after_receive header byte received_bytes c =
    if is_handled byte received_bytes
    then record c {
      recv_buffer_ = taken_off c.recv_buffer_ (header + byte);
      events = handled (seen c.recv_buffer_ (header + byte)) ∷ c.events;
    }
    else c

-- `PostReceive` on an idle receive buffer with room for a header and 127 bytes, whatever the first
-- byte is and for up to 512 received bytes, touches nothing outside the buffer and leaves it idle.
-- If the first byte is below 128 and no more than the received bytes, the handler is called once
-- with the buffer, and so many bytes with the header are taken off its front; otherwise nothing
-- changes.
pub post_receive_lem :
    (header byte received_bytes : ℕ) (rest : List ℕ) (c : Client)
    → IsIdle c.recv_buffer_
    → c.recv_buffer_.buffer_ ≡ byte ∷ rest
    → byte < 2 ^ 8
    → received_bytes ≤ recv_buffer_size
    → header + 127 ≤ c.recv_buffer_.size_
    → (post_receive header c received_bytes ≡ some (after_receive header byte received_bytes c))
      × IsIdle (after_receive header byte received_bytes c).recv_buffer_
unfolding post_receive
post_receive_lem header byte received_bytes rest c i e small got fits =
    let b = c.recv_buffer_ in
    let at_front : packet_size b ≡ some (widen byte) = rw (i.head, e) refl in
    let needed : minus32 (widen byte) b.offset_ ≡ widen byte = rw i.at_start (ground arith) in
    elim (Bool-cases (is_handled byte received_bytes)) [
      | inl here ↦
          let plain : widen byte ≡ byte = ground (arith, here) in
          let enough : leb byte received_bytes ≡ true = ground (arith, here) in
          let n = header + byte in
          let room : n ≤ b.size_ = ground (arith, here) in
          rw (here, at_front, ◌>>=◌, needed, plain, enough, handle_packet_lem c n room i)
            (refl, taken_off-IsIdle b n room i)
      | inr short ↦
          let fewer : leb (widen byte) received_bytes ≡ false = ground (arith, short) in
          rw (short, at_front, ◌>>=◌, needed, fewer) (refl, i)
    ]
