-- ===== src/Tcp/Client/Send.antt =====
-- `Send` and `PostSend` in turn on an idle send buffer.
use server_core.Common.{
  ℕ, ◌+◌, ◌≤◌, ◌<◌, ◌≡◌, ◌↔◌, refl, ap, ◌∙◌, Bool, true, false, List, [], ◌∷◌, ◌++◌, Option, none,
  some, length, drop, ◌>>=◌, arith, take-append, length-append, length-drop,
}
use server_core.Tcp.Buffer.{Buffer, write_at, produce}
use server_core.Tcp.Buffer.Moves.{write_at_fits}
use server_core.Tcp.Client.{Client, Event, sent, post, send, post_send}
use server_core.Tcp.Client.Receive.{
  IsIdle, seen, taken_off, taken_off-IsIdle, produce_idle, consume-seen,
}

-- A message sent, and its completion for all its bytes.
unfoldable pub send_whole : Client → List ℕ → Option Client
send_whole c bytes = do posted ← send c bytes true; post_send posted.1 (length bytes)

-- The messages of a list, each when the one before it is complete.
pub send_all : Client → List (List ℕ) → Option Client
send_all c [] = some c
send_all c (bytes ∷ messages) = do next ← send_whole c bytes; send_all next messages

-- Every message fits the send buffer.
abbrev pub AllFit : ℕ → List (List ℕ) → Type 0
AllFit n [] = Unit {0}
AllFit n (bytes ∷ messages) = (length bytes ≤ n) × AllFit n messages

abbrev pub transcript : List (List ℕ) → List Event → List Event
transcript [] es = es
transcript (bytes ∷ messages) es = transcript messages (sent bytes ∷ es)

abbrev pub filled : Buffer → List ℕ → Buffer
filled b bytes = record b { buffer_ = bytes ++ drop (length bytes) b.buffer_ }

pub filled-IsIdle :
    (b : Buffer) (bytes : List ℕ) → length bytes ≤ b.size_ → IsIdle b → IsIdle (filled b bytes)
filled-IsIdle b bytes h i = record {
  memory = omega (
    arith,
    length-append bytes (drop (length bytes) b.buffer_),
    length-drop (length bytes) b.buffer_,
    i.memory,
  );
  small = i.small;
  at_start = i.at_start;
  head = i.head;
  unlocked = i.unlocked;
}

-- Bytes written at the offset of an idle buffer stand at its front.
pub write_at-filled :
    (b : Buffer) (bytes : List ℕ)
    → IsIdle b
    → length bytes ≤ b.size_
    → write_at b.buffer_ b.offset_ bytes ≡ some (filled b bytes).buffer_
write_at-filled b bytes i h =
    ap (λ (k : ℕ). write_at b.buffer_ k bytes) i.at_start
    ∙ write_at_fits b.buffer_ 0 bytes (omega (arith, i.memory))
    ∙ ap (λ (k : ℕ). some (bytes ++ drop k b.buffer_)) (omega arith)

-- The client when the message has been copied, and when it has been sent.
abbrev copied : Client → List ℕ → Client
copied c bytes = record c { send_buffer_ = seen (filled c.send_buffer_ bytes) (length bytes) }

send_idle :
    (c : Client) (bytes : List ℕ)
    → IsIdle c.send_buffer_
    → length bytes ≤ c.send_buffer_.size_
    → send c bytes true ≡ some (true, post (copied c bytes) (sent bytes))
unfolding send
send_idle c bytes i h =
    let b = c.send_buffer_ in
    rw
      (
        write_at-filled b bytes i h,
        ◌>>=◌,
        produce_idle (filled b bytes) (length bytes) h (filled-IsIdle b bytes h i),
        i.at_start,
        take-append bytes (drop (length bytes) b.buffer_),
      )
      refl

send_whole_lem :
    (c : Client) (bytes : List ℕ)
    → IsIdle c.send_buffer_
    → length bytes ≤ c.send_buffer_.size_
    → send_whole c bytes
      ≡ some (record c {
        send_buffer_ = taken_off (filled c.send_buffer_ bytes) (length bytes);
        events = sent bytes ∷ c.events;
      })
unfolding send_whole post_send
send_whole_lem c bytes i h =
    rw
      (
        send_idle c bytes i h,
        ◌>>=◌,
        consume-seen (filled c.send_buffer_ bytes) (length bytes) h
            (filled-IsIdle c.send_buffer_ bytes h i),
      )
      refl

-- Messages that each fit the send buffer, sent one after another from an idle buffer, each
-- completed in full before the next: all are sent, none waits or runs over the buffer, the requests
-- carry exactly the messages' bytes in order, and the buffer is idle again.
pub send_all_lem :
    (messages : List (List ℕ)) (c : Client)
    → IsIdle c.send_buffer_
    → AllFit c.send_buffer_.size_ messages
    → (c' : Client) × (send_all c messages ≡ some c')
      × (c'.events ≡ transcript messages c.events)
      × IsIdle c'.send_buffer_
unfolding send_all
send_all_lem [] c i h = (c, refl, refl, i)
send_all_lem (bytes ∷ messages) c i (h, hs) =
    let b = filled c.send_buffer_ bytes in
    let next = record c {
      send_buffer_ = taken_off b (length bytes);
      events = sent bytes ∷ c.events;
    } in
    let (c', e, es, i') =
      send_all_lem messages next
        (taken_off-IsIdle b (length bytes) h (filled-IsIdle c.send_buffer_ bytes h i)) hs in
    (c', rw (send_whole_lem c bytes i h) e, es, i')

-- With the send buffer's lock free, `Send` writes outside the buffer exactly when the message is
-- longer than the room behind the offset.
pub send-overrun_iff :
    (c : Client) (bytes : List ℕ) (posts : Bool)
    → length c.send_buffer_.buffer_ ≡ c.send_buffer_.size_
    → c.send_buffer_.is_locked ≡ false
    → (send c bytes posts ≡ none) ↔ (c.send_buffer_.size_ < c.send_buffer_.offset_ + length bytes)
unfolding send produce
send-overrun_iff c bytes posts m u = (λ e. ground (arith, m, u, e), λ h. ground (arith, m, u, h))
