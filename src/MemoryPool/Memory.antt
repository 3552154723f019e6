-- ===== src/MemoryPool/Memory.antt =====
-- The memory that the pools thread their lists through. `next_of(p)` of
-- core/memory_pool/include/segregated_storage.hpp reads the pointer that stands at address `p`;
-- chunks are at least a pointer long (`alloc_size_`), so no two such pointers overlap, and the
-- memory is a function from the address of a pointer to its value.
pub use server_core.Common.{count, IsDistinct, count-append}
use server_core.Common.{ℕ, ◌<◌, ◌≡◌, refl, List, [], ◌∷◌, ◌++◌, ◌==◌, if◌then◌else◌, arith}

abbrev pub Ptr : Type 0
Ptr = ℕ

abbrev pub null : Ptr
null = 0

abbrev pub Memory : Type 0
Memory = Ptr → Ptr

-- `next_of(p) = v`
abbrev pub store : Memory → Ptr → Ptr → Memory
store mem p v = λ a. if a == p then v else mem a

-- From `p` the pointers lead through the addresses of the list, in order, to `end`.
abbrev pub Links : Memory → Ptr → List Ptr → Ptr → Type 0
Links mem p [] end = p ≡ end
Links mem p (x ∷ xs) end = (p ≡ x) × Links mem (mem x) xs end

-- A write outside a list leaves the list as it is.
pub Links-store :
    (mem : Memory) (p : Ptr) (xs : List Ptr) (end a v : Ptr)
    → Links mem p xs end
    → count a xs ≡ 0
    → Links (store mem a v) p xs end
Links-store mem p [] end a v l h = l
Links-store mem p (x ∷ xs) end a v l h =
    (l.0, ground (arith, Links-store mem (mem x) xs end a v l.1))

-- A list can be lengthened where it ends.
pub Links-append :
    (mem : Memory) (p : Ptr) (xs : List Ptr) (end last : Ptr)
    → Links mem p xs end
    → mem end ≡ last
    → Links mem p (xs ++ end ∷ []) last
Links-append mem p [] end last l e = (l, e)
Links-append mem p (x ∷ xs) end last l e = (l.0, Links-append mem (mem x) xs end last l.1 e)

-- A pointer written at a new address puts that address before the list.
pub Links-cons :
    (mem : Memory) (p : Ptr) (xs : List Ptr) (end a : Ptr)
    → Links mem p xs end
    → count a xs ≡ 0
    → Links (store mem a p) a (a ∷ xs) end
Links-cons mem p xs end a l h =
    let self : store mem a p a ≡ p = ground arith in
    (refl, rw self (Links-store mem p xs end a p l h))

-- A list stays linked in any memory that agrees at its addresses.
pub Links-agree :
    (mem mem' : Memory) (p : Ptr) (xs : List Ptr) (end : Ptr)
    → Links mem p xs end
    → ((a : Ptr) → 0 < count a xs → mem' a ≡ mem a)
    → Links mem' p xs end
Links-agree mem mem' p [] end l h = l
Links-agree mem mem' p (x ∷ xs) end l h = (
  l.0,
  rw (h x (ground arith)) (Links-agree mem mem' (mem x) xs end l.1 (λ a c. h a (omega arith))),
)

-- A list without the first occurrence of an address.
abbrev pub erase : Ptr → List Ptr → List Ptr
erase a [] = []
erase a (x ∷ xs) = if a == x then xs else x ∷ erase a xs

pub count-erase :
    (a c : Ptr) (xs : List Ptr) → 0 < count c xs → count a (c ∷ erase c xs) ≡ count a xs
count-erase a c [] h = absurd (omega arith)
count-erase a c (x ∷ xs) h = ground (arith, count-erase a c xs)
