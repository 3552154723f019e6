-- ===== src/MemoryPool/ObjectPool/Shares.antt =====
-- The pools of all threads side by side in one memory: what one of them does leaves the others as
-- they are.
use server_core.Common.{
  ℕ, ◌+◌, ◌≤◌, ◌<◌, ◌≡◌, ◌≢◌, inl, inr, sym, ◌∙◌, true, false, List, [], ◌==◌, arith, ne-or-eq,
  Bool-cases, ltb,
}
use server_core.MemoryPool.Memory.{Ptr, null, Memory, count, count-append, Links-agree}
use server_core.MemoryPool.Pool.{Pool}
use server_core.MemoryPool.Pool.Invariant.{uses}
use server_core.MemoryPool.Pool.Invariant
use server_core.MemoryPool.ObjectPool.{update}

ltb→lt : (a b : ℕ) → ltb a b ≡ true → a < b
ltb→lt a b h = ground arith

ltb→zero : (b : ℕ) → ltb 0 b ≡ false → b ≡ 0
ltb→zero b h = ground arith

-- The free chunks before a pool's tail, its chunks in use and its blocks.
pub record Share : Type 0 where
  pub free : List Ptr
  pub live : List Ptr
  pub blocks : List Ptr

abbrev pub nothing : Share
nothing = record { free = []; live = []; blocks = [] }

abbrev pub Fits : Memory → Pool → Share → Type 0
Fits mem p h = Invariant.Inv mem p h.free h.live h.blocks

abbrev pub used : Pool → Share → Ptr → ℕ
used p h a = uses p h.free h.live h.blocks a

-- Every pool has its share, and no address is in two shares.
pub record Apart (mem : Memory) (pools : ℕ → Pool) (shares : ℕ → Share) : Type 0 where
  pub fits : (i : ℕ) → Fits mem (pools i) (shares i)
  pub apart :
      (i j : ℕ) (a : Ptr) → i ≢ j → used (pools i) (shares i) a + used (pools j) (shares j) a ≤ 1
  pub tailed : (i : ℕ) (a : Ptr) → (pools i).storage.tail_ ≡ null → used (pools i) (shares i) a ≡ 0

-- A pool stays as it is in a memory that agrees at its free chunks and its blocks.
pub Fits-agree :
    (mem mem' : Memory) (p : Pool) (h : Share)
    → Fits mem p h
    → ((a : Ptr) → 0 < count a h.free + count a h.blocks → mem' a ≡ mem a)
    → Fits mem' p h
Fits-agree mem mem' p h inv same = record {
  holds = record {
    linked =
        Links-agree mem mem' p.storage.head_ h.free p.storage.tail_ inv.holds.linked
          (λ a c. same a (omega arith));
    distinct = inv.holds.distinct;
    nonnull = inv.holds.nonnull;
  };
  headers = Links-agree mem mem' p.first_ h.blocks null inv.headers (λ a c. same a (omega arith));
  room = inv.room;
  several = inv.several;
}

pub used_le : (mem : Memory) (p : Pool) (h : Share) → Fits mem p h → (a : Ptr) → used p h a ≤ 1
used_le mem p h inv a = ground (arith, inv.holds.distinct a, count-append a h.live h.blocks)

-- Two shares, of which one has no address where the other has one.
apart_le :
    (mem mem' : Memory) (p q : Pool) (h k : Share) (a : Ptr)
    → Fits mem p h
    → Fits mem' q k
    → (0 < used q k a → used p h a ≡ 0)
    → used p h a + used q k a ≤ 1
apart_le mem mem' p q h k a f g away = elim (Bool-cases (ltb 0 (used q k a))) [
  | inl some_there ↦
      let pos : 0 < used q k a = ltb→lt 0 (used q k a) some_there in
      omega (arith, away pos, used_le mem' q k g a)
  | inr none_there ↦
      let z : used q k a ≡ 0 = ltb→zero (used q k a) none_there in
      omega (arith, z, used_le mem p h f a)
]

pub listed-used :
    (mem : Memory) (p : Pool) (h : Share)
    → Fits mem p h
    → (a : Ptr) → 0 < count a h.free + count a h.blocks
    → 0 < used p h a
listed-used mem p h inv a c =
    ground (arith, c, inv.holds.nonnull, count-append null h.live h.blocks)

-- One pool changes, with memory only where no other pool has an address.
pub Apart-update :
    {mem : Memory} {pools : ℕ → Pool} {shares : ℕ → Share} (j : ℕ) (mem' : Memory) (p : Pool)
    (h : Share)
    → Apart mem pools shares
    → Fits mem' p h
    → ((a : Ptr) → p.storage.tail_ ≡ null → used p h a ≡ 0)
    → ((i : ℕ) (a : Ptr)
        → i ≢ j
        → 0 < used (pools i) (shares i) a
        → (mem' a ≡ mem a) × (used p h a ≡ 0))
    → Apart mem' (update pools j p) (update shares j h)
Apart-update {mem} {pools} {shares} j mem' p h inv fits tailed away = record {
  fits = fits_at;
  tailed = λ i a t. elim (ne-or-eq i j) [
    | inl e ↦ let here : (i == j) ≡ true = ground (arith, e) in rw here (tailed a (rw here at t))
    | inr n ↦
        let there : (i == j) ≡ false = ground (arith, n) in
        rw there (inv.tailed i a (rw there at t))
  ];
  apart = λ i k a ne. elim (ne-or-eq i j) [
    | inl e ↦
        let here : (i == j) ≡ true = ground (arith, e) in
        let there : (k == j) ≡ false = ground (arith, e, ne) in
        rw (here, there)
          (apart_le mem' mem p (pools k) h (shares k) a fits (inv.fits k)
            (λ c. (away k a (λ z. ne (e ∙ sym z)) c).1))
    | inr n ↦ elim (ne-or-eq k j) [
      | inl e ↦
          let here : (k == j) ≡ true = ground (arith, e) in
          let there : (i == j) ≡ false = ground (arith, n) in
          rw (here, there)
            (omega (
              arith,
              apart_le mem' mem p (pools i) h (shares i) a fits (inv.fits i)
                  (λ c. (away i a n c).1),
            ))
      | inr m ↦
          let one : (i == j) ≡ false = ground (arith, n) in
          let two : (k == j) ≡ false = ground (arith, m) in rw (one, two) (inv.apart i k a ne)
    ]
  ];
}
  where
    fits_at : (i : ℕ) → Fits mem' (update pools j p i) (update shares j h i)
    fits_at i = elim (ne-or-eq i j) [
      | inl e ↦ let here : (i == j) ≡ true = ground (arith, e) in rw here fits
      | inr n ↦
          let there : (i == j) ≡ false = ground (arith, n) in
          rw there (
            Fits-agree mem mem' (pools i) (shares i) (inv.fits i)
              (λ a c. (away i a n (listed-used mem (pools i) (shares i) (inv.fits i) a c)).0))
    ]
