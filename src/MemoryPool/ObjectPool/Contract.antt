-- ===== src/MemoryPool/ObjectPool/Contract.antt =====
-- The pools of the threads keep what a client relies on. A call is a thread with the answer of
-- `::malloc`; `Free` is served for a thread that has a pool, or while one can still be made.
use server_core.Common.{ℕ, ◌<◌, ◌≡◌, ◌≢◌, ◌⊎◌, inl, inr, sym, subst, [], none, some, count, arith}
use server_core.MemoryPool.Memory.{Ptr, Memory, erase}
use server_core.MemoryPool.ChunkPool.{ChunkPool}
use server_core.MemoryPool.ObjectPool.{ObjectPool, max_thread_num, new_object_pool, malloc, free}
use server_core.MemoryPool.ObjectPool.Shares.{nothing}
use server_core.MemoryPool.ObjectPool.Ownership.{new-Inv}
use server_core.MemoryPool.ObjectPool.Ownership.Writes.{written-Inv}
use server_core.MemoryPool.ObjectPool.Histories.{State, Answers}
use server_core.MemoryPool.ObjectPool.Contents.Calls.{Call, frees, malloc-SameAt, Call-SameAt}
use server_core.MemoryPool.ObjectPool.Threads.{
  HasInv, Returned, given_back, no_pool_for, malloc-HasInv, free-HasInv, taken-new,
}

-- The thread has a pool, or there is room in the array.
abbrev pub HasPool : ObjectPool → (t : ℕ) → Type 0
HasPool s t = (s.thread_id_ t ≢ none) ⊎ (s.thread_id_counter < max_thread_num)

pub Returned-some :
    {s : State} {t : ℕ} {c : Ptr}
    → Returned s t c
    → HasPool s.objects t
    → (objects : ObjectPool) × (free s.objects t c ≡ some objects)
Returned-some (given_back _ objects e _ _ _) has = (objects, e)
Returned-some (no_pool_for unset full e) (inl set) = absurd (set unset)
Returned-some (no_pool_for unset full e) (inr room) = absurd (omega (arith, full, room))

abbrev pub object_chunks : (requested_size : ℕ) → ChunkPool
object_chunks requested_size = record {
  State = ObjectPool;
  Call = ℕ × Ptr;
  initial =
      λ s. (mem : Memory) × (owner : Ptr → ℕ) × (s ≡ new_object_pool requested_size mem owner);
  malloc = λ s call. malloc s call.0 call.1;
  free = λ s call chunk. free s call.0 chunk;
  content = λ s a. s.mem a;
  Lends = λ s held. HasInv (record { objects = s; held = held });
  Answers = λ s held call. Answers (record { objects = s; held = held }) call.0 call.1;
  Serves = λ s call. HasPool s call.0;
  Writes = λ s held t.
      (mem : Memory) × (owner : Ptr → ℕ) × (t ≡ record s { mem = mem; owner = owner })
      × ((a : Ptr) → count a held ≡ 0 → mem a ≡ s.mem a)
      × ((a : Ptr) → 0 < count a held → owner a ≡ s.owner a);
  initial-Lends = λ (mem, owner, e).
      subst (λ (s : ObjectPool). HasInv (record { objects = s; held = [] })) (sym e)
        (λ i. nothing, new-Inv requested_size mem owner);
  malloc-Lends = λ {s} {t} {held} {chunk} call inv answers e.
      let (taken, kept) =
        malloc-HasInv (record { objects = s; held = held }) call.0 call.1 inv answers in
      let (n, new) = taken-new taken e in (n, new, kept chunk t e);
  free-Lends = λ {s} {t} {held} call chunk inv k e.
      (free-HasInv (record { objects = s; held = held }) call.0 chunk inv k).1 t e;
  free-some = λ {s} {held} call chunk inv k has.
      Returned-some (free-HasInv (record { objects = s; held = held }) call.0 chunk inv k).0 has;
  malloc-content = λ {s} {t} {held} {chunk} call a inv answers e k.
      (malloc-SameAt (record { objects = s; held = held }) call.0 call.1 chunk t a inv answers e
        k).0;
  free-content = λ {s} {t} {held} call chunk a inv h e k k'.
      let before : State = record { objects = s; held = held } in
      let after : State = record { objects = t; held = erase chunk held } in
      let step : Call before after = frees call.0 chunk t h e in (Call-SameAt a inv step k k').0;
  write-Lends = λ {s} {t} {held} (shares, inv) (mem, owner, e, same, tags).
      subst (λ (u : ObjectPool). HasInv (record { objects = u; held = held })) (sym e)
        (shares, written-Inv s held shares mem owner same tags inv);
}
