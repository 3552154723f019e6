-- ===== src/MemoryPool/Pool/Contents.antt =====
-- Where the calls of a pool write.
use mathlib.Core.Option.{some-injective}
use server_core.Common.{◌+◌, ◌*◌, ◌≤◌, ◌<◌, ◌≡◌, ◌≢◌, ◌⊎◌, sym, ◌∙◌, ap, true, List, some, arith}
use server_core.MemoryPool.Memory.{Ptr, Memory}
use server_core.MemoryPool.Storage.{empty, storage_free, free_append}
use server_core.MemoryPool.Pool.{Pool, pointer_size, malloc, free, free_append_chunk}
use server_core.MemoryPool.Pool.Alloc.{Mallocs, reuses, grows, fails}

-- `Free` writes at the chunk, and `FreeAppend` at the tail.
pub free-mem :
    (mem mem' : Memory) (p p' : Pool) (c a : Ptr)
    → free mem p c ≡ some (mem', p')
    → a ≢ c
    → mem' a ≡ mem a
unfolding free storage_free
free-mem mem mem' p p' c a e n = ground (arith, e, n)

pub free_append_chunk-mem :
    (mem mem' : Memory) (p p' : Pool) (c a : Ptr)
    → free_append_chunk mem p c ≡ some (mem', p')
    → a ≢ p.storage.tail_
    → mem' a ≡ mem a
unfolding free_append_chunk free_append
free_append_chunk-mem mem mem' p p' c a e n = ground (arith, e, n)

-- `Malloc` writes in a new block alone.
pub malloc-mem :
    {mem mem' : Memory} {p p' : Pool} {c : Ptr} {xs live blocks : List Ptr} (ptr a : Ptr)
    → Mallocs mem p ptr xs live blocks
    → (empty p.storage ≡ true
        → 0 < ptr
        → (a < ptr) ⊎ (ptr + pointer_size + p.next_size_ * p.alloc_size_ ≤ a))
    → malloc mem p ptr ≡ some (c, mem', p')
    → mem' a ≡ mem a
malloc-mem ptr a (fails _ _ taken) outside e =
    ap (λ (r : Ptr × Memory × Pool). r.1 a) (some-injective _ _ (sym e ∙ taken))
malloc-mem ptr a (reuses _ _ _ _ _ taken _ _ _) outside e =
    ap (λ (r : Ptr × Memory × Pool). r.1 a) (some-injective _ _ (sym e ∙ taken))
malloc-mem ptr a (grows _ _ _ none_left pos taken _ _ keeps _ _) outside e =
    ap (λ (r : Ptr × Memory × Pool). r.1 a) (some-injective _ _ (sym e ∙ taken))
    ∙ (keeps a (outside none_left pos)).0
