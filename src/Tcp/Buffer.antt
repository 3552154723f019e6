-- ===== src/Tcp/Buffer.antt =====
-- core/server/Buffer.h. The memory is a list of `size_` bytes; the three counters are 32 bits wide.
-- An operation gives no result where it would read or write outside the memory, and `produce` none
-- where it would wait for the lock. `_ASSERT` does nothing outside a debug build.
pub mod Moves
use server_core.Common.{
  ℕ, zero, suc, ◌+◌, ◌-◌, ◌%◌, ◌^◌, ◌≡◌, Bool, true, false, List, [], ◌∷◌, ◌++◌, Option, none, some,
  if◌then◌else◌, leb, length, take, drop, replicate, ◌>>=◌,
}

pub record Buffer : Type 0 where
  pub buffer_ : List ℕ
  pub size_ : ℕ
  pub offset_ : ℕ
  pub head_ : ℕ
  pub is_locked : Bool

-- `Init`
abbrev pub init : ℕ → Buffer
init size = record {
  buffer_ = replicate size 0;
  size_ = size;
  offset_ = 0;
  head_ = 0;
  is_locked = false;
}

-- `a - b` on an `unsigned int`
abbrev pub minus32 : ℕ → ℕ → ℕ
minus32 a b = (a + (2 ^ 32 - b)) % 2 ^ 32

-- `SetHead`
abbrev pub set_head : Buffer → ℕ → Buffer
set_head b offset = record b { head_ = offset }

-- What `Read` points at.
abbrev pub read : Buffer → List ℕ
read b = drop b.head_ b.buffer_

-- Bytes written from place `at` on, as `memcpy` and `memmove` do.
abbrev pub write_at : List ℕ → ℕ → List ℕ → Option (List ℕ)
write_at mem at bytes =
    if leb (at + length bytes) (length mem)
    then some (take at mem ++ (bytes ++ drop (at + length bytes) mem))
    else none

-- Bytes read from place `at` on.
abbrev pub read_at : List ℕ → ℕ → ℕ → Option (List ℕ)
read_at mem at n = if leb (at + n) (length mem) then some (take n (drop at mem)) else none

-- The end of `Consume`, after `memmove`.
abbrev pub consumed : Buffer → ℕ → List ℕ → Buffer
consumed b n mem = record b {
  buffer_ = mem;
  offset_ = minus32 b.offset_ n;
  head_ = 0;
  is_locked = false;
}

-- `Consume`
unfoldable pub consume : Buffer → ℕ → Option Buffer
consume b n = do
  moved ← read_at b.buffer_ b.offset_ (minus32 b.size_ n)
  mem ← write_at b.buffer_ 0 moved
  some (consumed b n mem)

-- `Produce`
unfoldable pub produce : Buffer → ℕ → Option Buffer
produce b n =
    if b.is_locked
    then none
    else some (record b { offset_ = (b.offset_ + n) % 2 ^ 32; is_locked = true })

-- `GetRemained`
unfoldable pub get_remained : Buffer → ℕ
get_remained b = minus32 b.size_ b.offset_
