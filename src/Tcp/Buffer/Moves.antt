-- ===== src/Tcp/Buffer/Moves.antt =====
-- `Consume` and `Produce` on a buffer whose counters fit its memory.
use server_core.Common.{
  ℕ, zero, suc, ◌+◌, ◌-◌, ◌^◌, ◌≤◌, ◌<◌, ◌≡◌, ◌↔◌, refl, ap, ◌∙◌, List, [], ◌∷◌, ◌++◌, none, some,
  leb, length, take, drop, length-take, length-drop, arith, Bool-cases, inl, inr,
}
use server_core.Tcp.Buffer.{Buffer, minus32, write_at, read_at, consumed, consume}

-- The counters fit the memory, and the memory a 32-bit size.
pub record IsValid (b : Buffer) : Type 0 where
  pub memory : length b.buffer_ ≡ b.size_
  pub small : b.size_ < 2 ^ 32
  pub within : b.offset_ ≤ b.size_

take-all : (n : ℕ) (xs : List ℕ) → length xs ≤ n → take n xs ≡ xs
take-all zero [] h = refl
take-all zero (x ∷ xs) h = absurd (omega (arith, h))
take-all (suc n) [] h = refl
take-all (suc n) (x ∷ xs) h = ap (◌∷◌ x) (take-all n xs (omega arith))

minus32-sub : (a b : ℕ) → b ≤ a → a < 2 ^ 32 → minus32 a b ≡ a - b
minus32-sub a b h k = omega arith

pub read_at_fits :
    (mem : List ℕ) (at n : ℕ) → at + n ≤ length mem → read_at mem at n ≡ some (take n (drop at mem))
read_at_fits mem at n h = ground arith

read_at_past : (mem : List ℕ) (at n : ℕ) → length mem < at + n → read_at mem at n ≡ none
read_at_past mem at n h = ground arith

pub write_at_fits :
    (mem : List ℕ) (at : ℕ) (bytes : List ℕ)
    → at + length bytes ≤ length mem
    → write_at mem at bytes ≡ some (take at mem ++ (bytes ++ drop (at + length bytes) mem))
write_at_fits mem at bytes h = ground arith

-- Where `memmove` stays inside the memory.
consume_fits :
    (b : Buffer) (n : ℕ)
    → IsValid b
    → n ≤ b.size_
    → b.offset_ ≤ n
    → let moved = take (b.size_ - n) (drop b.offset_ b.buffer_) in
      consume b n ≡ some (consumed b n (moved ++ drop (b.size_ - n) b.buffer_))
unfolding consume
consume_fits b n v h k =
    let moved = take (b.size_ - n) (drop b.offset_ b.buffer_) in
    let size : 0 + length moved ≡ b.size_ - n = omega (
      arith,
      length-take (b.size_ - n) (drop b.offset_ b.buffer_),
      length-drop b.offset_ b.buffer_,
      v.memory,
    ) in
    rw
      (
        minus32-sub b.size_ n h v.small,
        read_at_fits b.buffer_ b.offset_ (b.size_ - n) (omega (arith, v.memory)),
        write_at_fits b.buffer_ 0 moved (omega (arith, v.memory, size)),
        size,
      )
      refl

pub consume_all :
    (b : Buffer) (n : ℕ)
    → IsValid b
    → b.offset_ ≡ n
    → consume b n ≡ some (consumed b n (drop n b.buffer_ ++ drop (b.size_ - n) b.buffer_))
consume_all b n v e =
    let all : take (b.size_ - n) (drop n b.buffer_) ≡ drop n b.buffer_ =
      take-all (b.size_ - n) (drop n b.buffer_)
        (omega (arith, length-drop n b.buffer_, v.memory)) in
    consume_fits b n v (omega (arith, v.within)) (omega arith)
    ∙ ap (λ (xs : List ℕ). some (consumed b n (xs ++ drop (b.size_ - n) b.buffer_)))
        (ap (λ (k : ℕ). take (b.size_ - n) (drop k b.buffer_)) e ∙ all)

consume_past : (b : Buffer) (n : ℕ) → IsValid b → n ≤ b.size_ → n < b.offset_ → consume b n ≡ none
unfolding consume
consume_past b n v h k =
    rw
      (
        minus32-sub b.size_ n h v.small,
        read_at_past b.buffer_ b.offset_ (b.size_ - n) (omega (arith, v.memory, v.within)),
      )
      refl

-- `Consume` of no more bytes than a buffer has, whose counters fit its memory, reads outside the
-- memory exactly when fewer bytes are consumed than were produced.
pub consume-none_iff :
    (b : Buffer) (n : ℕ) → IsValid b → n ≤ b.size_ → (consume b n ≡ none) ↔ (n < b.offset_)
consume-none_iff b n v h = elim (Bool-cases (leb b.offset_ n)) [
  | inl fits ↦
      let kept = consume_fits b n v h (ground (arith, fits)) in
      (λ e. absurd (ground (arith, kept, e)), λ k. absurd (ground (arith, fits, k)))
  | inr past ↦ (λ e. ground (arith, past), consume_past b n v h)
]
