-- ===== src/MemoryPool/Pool/Contract.antt =====
-- One pool alone keeps what a client relies on. A call is the answer of `::malloc`; where `Malloc`
-- answers null, the client gets nothing.
use mathlib.Core.Option.{some-injective}
use server_core.Common.{
  ℕ, ◌+◌, ◌*◌, ◌≤◌, ◌<◌, ◌≡◌, ◌≢◌, ◌⊎◌, inl, inr, sym, ◌∙◌, ap, subst, true, ◌&&◌, List, [], ◌∷◌,
  Option, none, some, ◌==◌, leb, ltb, if◌then◌else◌, count, count-append, arith, Bool-cases,
}
use server_core.MemoryPool.Memory.{Ptr, null, Memory, Links, erase, count-erase}
use server_core.MemoryPool.Storage.{empty}
use server_core.MemoryPool.ChunkPool.{ChunkPool}
use server_core.MemoryPool.Pool.{Pool, pointer_size, new_pool, malloc, free}
use server_core.MemoryPool.Pool.Invariant.{Inv, IsFresh, new_pool-Inv}
use server_core.MemoryPool.Pool.Alloc.{malloc-Inv, free-Inv}
use server_core.MemoryPool.Pool.Contents.{free-mem, malloc-mem}
use server_core.MemoryPool.Pool.Clients.{State, allocate-HasInv, answer-good, write-HasInv}

-- What is not null of an answer.
abbrev pub chunk_of : Option (Ptr × Memory × Pool) → Option (Ptr × (Memory × Pool))
chunk_of none = none
chunk_of (some (c, mem, p)) = if c == null then none else some (c, (mem, p))

chunk_of-some :
    (o : Option (Ptr × Memory × Pool)) (c : Ptr) (t : Memory × Pool)
    → chunk_of o ≡ some (c, t)
    → (o ≡ some (c, t.0, t.1)) × (c ≢ null)
chunk_of-some none c t e = absurd (ground (arith, e))
chunk_of-some (some (d, mem, p)) c t e = elim (Bool-cases (d == null)) [
  | inl z ↦ absurd (ground (arith, rw z at e))
  | inr n ↦
      let same = some-injective _ _ (rw n at e) in
      (
        ap (λ (r : Ptr × (Memory × Pool)). some (r.0, r.1.0, r.1.1)) same,
        subst (λ (r : Ptr × (Memory × Pool)). r.0 ≢ null) same (λ z. ground (arith, n, z)),
      )
]

held-outside :
    (p : Pool) (live blocks : List Ptr) (ptr a : Ptr)
    → IsFresh p live blocks ptr
    → 0 < count a live
    → (a < ptr) ⊎ (ptr + pointer_size + p.next_size_ * p.alloc_size_ ≤ a)
held-outside p live blocks ptr a fresh k =
    elim (Bool-cases (leb ptr a && ltb a (ptr + pointer_size + p.next_size_ * p.alloc_size_))) [
      | inl within ↦
          absurd
            (omega (arith, k, fresh.unused a (ground (arith, within)) (ground (arith, within))))
      | inr beyond ↦ ground (arith, beyond)
    ]

abbrev pub Lends : Memory × Pool → List Ptr → Type 0
Lends s held = (xs blocks : List Ptr) × Inv s.0 s.1 xs held blocks

abbrev pub Fresh : Memory × Pool → List Ptr → Ptr → Type 0
Fresh s held ptr =
    (blocks : List Ptr)
    → Links s.0 s.1.first_ blocks null
    → empty s.1.storage ≡ true
    → 0 < ptr
    → IsFresh s.1 held blocks ptr

pub malloc-Lends :
    (s t : Memory × Pool) (held : List Ptr) (c ptr : Ptr)
    → Lends s held
    → Fresh s held ptr
    → chunk_of (malloc s.0 s.1 ptr) ≡ some (c, t)
    → (c ≢ null) × (count c held ≡ 0) × Lends t (c ∷ held)
malloc-Lends s t held c ptr (xs, blocks, inv) fresh e =
    let (given, n) = chunk_of-some (malloc s.0 s.1 ptr) c t e in
    let did = malloc-Inv inv ptr (fresh blocks inv.headers) in
    let before : State = record { mem = s.0; pool = s.1; live = held; blocks = blocks } in
    let (d, m, p, taken, _, new) = answer-good {s = before} ptr did in
    let at : d ≡ c =
      ap (λ (r : Ptr × Memory × Pool). r.0) (some-injective _ _ (sym taken ∙ given)) in
    let (ys, inv') = allocate-HasInv {s = before} ptr c t.0 t.1 did given n in
    (
      n,
      omega (
        arith,
        subst (λ (q : Ptr). count q held + count q blocks ≡ 0) at (new (λ z. n (sym at ∙ z))),
      ),
      (ys, if empty s.1.storage then ptr ∷ blocks else blocks, inv'),
    )

pub free-Lends :
    (s t : Memory × Pool) (held : List Ptr) (c : Ptr)
    → Lends s held
    → 0 < count c held
    → free s.0 s.1 c ≡ some t
    → Lends t (erase c held)
free-Lends s t held c (xs, blocks, inv) k e =
    let (_, _, given, inv', _) = free-Inv inv c k in
    subst (λ (r : Memory × Pool). Lends r (erase c held)) (some-injective _ _ (sym given ∙ e))
      (c ∷ xs, blocks, inv')

pub free-some :
    (s : Memory × Pool) (held : List Ptr) (c : Ptr)
    → Lends s held
    → 0 < count c held
    → (t : Memory × Pool) × (free s.0 s.1 c ≡ some t)
free-some s held c (xs, blocks, inv) k =
    let (mem, p, given, _, _) = free-Inv inv c k in ((mem, p), given)

pub malloc-content :
    (s t : Memory × Pool) (held : List Ptr) (c ptr a : Ptr)
    → Lends s held
    → Fresh s held ptr
    → chunk_of (malloc s.0 s.1 ptr) ≡ some (c, t)
    → 0 < count a held
    → t.0 a ≡ s.0 a
malloc-content s t held c ptr a (xs, blocks, inv) fresh e k =
    let new = fresh blocks inv.headers in
    malloc-mem ptr a (malloc-Inv inv ptr new)
      (λ z h. held-outside s.1 held blocks ptr a (new z h) k)
      (chunk_of-some (malloc s.0 s.1 ptr) c t e).0

pub free-content :
    (s t : Memory × Pool) (held : List Ptr) (c a : Ptr)
    → Lends s held
    → 0 < count c held
    → free s.0 s.1 c ≡ some t
    → 0 < count a (erase c held)
    → t.0 a ≡ s.0 a
free-content s t held c a (xs, blocks, inv) k e k' = free-mem s.0 t.0 s.1 t.1 c a e (λ z.
    ground (arith, z, k', count-erase a c held k, inv.holds.distinct c, count-append c held blocks))

pub write-Lends :
    (s t : Memory × Pool) (held : List Ptr)
    → Lends s held
    → (t.1 ≡ s.1) × ((a : Ptr) → count a held ≡ 0 → t.0 a ≡ s.0 a)
    → Lends t held
write-Lends s t held (xs, blocks, inv) (same, kept) =
    let before : State = record { mem = s.0; pool = s.1; live = held; blocks = blocks } in
    let (ys, inv') = write-HasInv {s = before} t.0 kept (xs, inv) in
    (ys, blocks, subst (λ (p : Pool). Inv t.0 p ys held blocks) (sym same) inv')

abbrev pub single_chunks : (requested_size : ℕ) → ChunkPool
single_chunks requested_size = record {
  State = Memory × Pool;
  Call = Ptr;
  initial = λ s. s.1 ≡ new_pool requested_size;
  malloc = λ s ptr. chunk_of (malloc s.0 s.1 ptr);
  free = λ s ptr chunk. free s.0 s.1 chunk;
  content = λ s a. s.0 a;
  Lends = Lends;
  Answers = Fresh;
  Serves = λ s ptr. Unit {0};
  Writes = λ s held t. (t.1 ≡ s.1) × ((a : Ptr) → count a held ≡ 0 → t.0 a ≡ s.0 a);
  initial-Lends = λ {s} e.
      ([], [], subst (λ (p : Pool). Inv s.0 p [] [] []) (sym e) (new_pool-Inv s.0 requested_size));
  malloc-Lends = λ {s} {t} {held} {chunk} ptr. malloc-Lends s t held chunk ptr;
  free-Lends = λ {s} {t} {held} ptr chunk. free-Lends s t held chunk;
  free-some = λ {s} {held} ptr chunk inv k _. free-some s held chunk inv k;
  malloc-content = λ {s} {t} {held} {chunk} ptr a. malloc-content s t held chunk ptr a;
  free-content =
      λ {s} {t} {held} ptr chunk a inv k e _ k'. free-content s t held chunk a inv k e k';
  write-Lends = λ {s} {t} {held} inv w. write-Lends s t held inv w;
}
