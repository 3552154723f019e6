-- ===== src/MemoryPool/ObjectPool/Moves.antt =====
-- One pool takes a chunk or is given one, with the pools of the other threads beside it.
use mathlib.Core.Option.{some-injective}
use server_core.Common.{
  ℕ, ◌+◌, ◌*◌, ◌≤◌, ◌<◌, ◌≡◌, ◌≢◌, ◌⊎◌, inl, inr, refl, ap, sym, ◌∙◌, subst, true, List, [], ◌∷◌,
  ◌++◌, some, ◌==◌, arith, Bool-cases, ltb, leb, ◌&&◌,
}
use server_core.MemoryPool.Memory.{
  Ptr, null, Memory, store, count, count-append, erase, count-erase,
}
use server_core.MemoryPool.Storage.{empty, storage_free, free_append}
use server_core.MemoryPool.Pool.{Pool, pointer_size, malloc, free, free_append_chunk}
use server_core.MemoryPool.Pool.Invariant.{IsFresh}
use server_core.MemoryPool.Pool.Alloc.{
  Mallocs, reuses, grows, fails, free-Inv, free_append_chunk-Inv,
}
use server_core.MemoryPool.ObjectPool.{update}
use server_core.MemoryPool.ObjectPool.Shares.{Share, Fits, used, Apart, Apart-update}

abbrev pub region_end : Pool → Ptr → ℕ
region_end p ptr = ptr + pointer_size + p.next_size_ * p.alloc_size_

module _ {mem : Memory} {pools : ℕ → Pool} {shares : ℕ → Share} (apart : Apart mem pools shares)
    (j : ℕ) where
  -- The pool's addresses stay, and memory changes only at them.
  same-Apart :
      (mem' : Memory) (p : Pool) (h : Share)
      → Fits mem' p h
      → (p.storage.tail_ ≡ null → (pools j).storage.tail_ ≡ null)
      → ((a : Ptr) → used p h a ≡ used (pools j) (shares j) a)
      → ((a : Ptr) → used (pools j) (shares j) a ≡ 0 → a ≢ null → mem' a ≡ mem a)
      → Apart mem' (update pools j p) (update shares j h)
  same-Apart mem' p h fits tail same kept =
      Apart-update j mem' p h apart fits (λ a t. same a ∙ apart.tailed j a (tail t))
        (λ i a ne c.
          let none_here : used (pools j) (shares j) a ≡ 0 =
            omega (arith, apart.apart i j a ne, c) in
          (kept a none_here (λ z. ground (arith, c, z)), omega (arith, same a, none_here)))

  -- What a call leaves of a client's view: the pool's share of live chunks.
  abbrev Given : (mem' : Memory) (p : Pool) (live : List Ptr) → Type 0
  Given mem' p live =
      (h : Share) × (h.live ≡ live) × Apart mem' (update pools j p) (update shares j h)

  abbrev here : Share
  here = shares j

  pub live_ne_null : (c : Ptr) → 0 < count c here.live → c ≢ null
  live_ne_null c h z =
      ground (arith, (apart.fits j).holds.nonnull, count-append null here.live here.blocks, h, z)

  free-result :
      (c : Ptr)
      → c ≢ null
      → free mem (pools j) c
        ≡ some (
          store mem c (pools j).storage.head_,
          record (pools j) { storage = record ((pools j).storage) { head_ = c } },
        )
  unfolding free storage_free
  free-result c n = ground arith

  pub free-Apart :
      (c : Ptr)
      → 0 < count c here.live
      → (mem' : Memory) × (p : Pool) × (free mem (pools j) c ≡ some (mem', p))
        × (p.storage.head_ ≡ c)
        × Given mem' p (erase c here.live)
  free-Apart c h =
      let nonnull = live_ne_null c h in
      let (mem', p, e, inv, _) = free-Inv (apart.fits j) c h in
      let same = some-injective _ _ (sym e ∙ free-result c nonnull) in
      let mem₁ = store mem c (pools j).storage.head_ in
      let p₁ = record (pools j) { storage = record ((pools j).storage) { head_ = c } } in
      let share : Share = record {
        free = c ∷ here.free;
        live = erase c here.live;
        blocks = here.blocks;
      } in
      let fits : Fits mem₁ p₁ share = subst (λ (r : Memory × Pool). Fits r.0 r.1 share) same inv in
      (
        mem₁,
        p₁,
        free-result c nonnull,
        refl,
        (
          share,
          refl,
          same-Apart mem₁ p₁ share fits (λ t. t) (λ a. ground (arith, count-erase a c here.live h))
              (λ a z n. ground (arith, h, z, n)),
        ),
      )

  append-result :
      (c : Ptr)
      → (pools j).storage.tail_ ≢ null
      → free_append_chunk mem (pools j) c
        ≡ some (
          store mem (pools j).storage.tail_ c,
          record (pools j) { storage = record ((pools j).storage) { tail_ = c } },
        )
  unfolding free_append_chunk free_append
  append-result c n = ground arith

  pub append-Apart :
      (c : Ptr)
      → 0 < count c here.live
      → (pools j).storage.tail_ ≢ null
      → (mem' : Memory) × (p : Pool) × (free_append_chunk mem (pools j) c ≡ some (mem', p))
        × (p.storage.tail_ ≡ c)
        × Given mem' p (erase c here.live)
  append-Apart c h t =
      let (mem', p, e, inv, _, _) = free_append_chunk-Inv (apart.fits j) c h t in
      let same = some-injective _ _ (sym e ∙ append-result c t) in
      let old = (pools j).storage.tail_ in
      let mem₁ = store mem old c in
      let p₁ = record (pools j) { storage = record ((pools j).storage) { tail_ = c } } in
      let share : Share = record {
        free = here.free ++ old ∷ [];
        live = erase c here.live;
        blocks = here.blocks;
      } in
      let fits : Fits mem₁ p₁ share = subst (λ (r : Memory × Pool). Fits r.0 r.1 share) same inv in
      (
        mem₁,
        p₁,
        append-result c t,
        refl,
        (
          share,
          refl,
          same-Apart mem₁ p₁ share fits (λ z. absurd (live_ne_null c h z))
              (λ a.
                ground (arith, count-erase a c here.live h, count-append a here.free (old ∷ [])))
              (λ a z n. ground (arith, z, n)),
        ),
      )

  -- A block from `::malloc` for this pool lies where no other pool has an address.
  pub record IsFreshFor (ptr : Ptr) : Type 0 where
    pub own : IsFresh (pools j) here.live here.blocks ptr
    pub others :
        (i : ℕ) (a : Ptr)
        → i ≢ j
        → ptr ≤ a
        → a < region_end (pools j) ptr
        → used (pools i) (shares i) a ≡ 0

  outside :
      (ptr : Ptr)
      → IsFreshFor ptr
      → (i : ℕ) (a : Ptr) → i ≢ j
      → 0 < used (pools i) (shares i) a
      → (a < ptr) ⊎ (region_end (pools j) ptr ≤ a)
  outside ptr new i a ne u = elim (Bool-cases (leb ptr a && ltb a (region_end (pools j) ptr))) [
    | inl within ↦
        let lo : ptr ≤ a = ground (arith, within) in
        let hi : a < region_end (pools j) ptr = ground (arith, within) in
        absurd (omega (arith, u, new.others i a ne lo hi))
    | inr beyond ↦ ground (arith, beyond)
  ]

  pub malloc-cases :
      (ptr : Ptr)
      → Mallocs mem (pools j) ptr here.free here.live here.blocks
      → (empty (pools j).storage ≡ true → 0 < ptr → IsFreshFor ptr)
      → ((ptr ≡ null) × (malloc mem (pools j) ptr ≡ some (null, mem, pools j)))
        ⊎ ((c : Ptr) × (mem' : Memory) × (p : Pool) × (malloc mem (pools j) ptr ≡ some (c, mem', p))
            × (c ≢ null)
            × Given mem' p (c ∷ here.live))
  malloc-cases ptr (fails e z taken) fresh = inl (z, taken)
  malloc-cases ptr (reuses c ys p e split taken inv next tail) fresh =
      let share : Share = record { free = ys; live = c ∷ here.live; blocks = here.blocks } in
      inr (
        c,
        mem,
        p,
        taken,
        λ z. ground (arith, inv.holds.nonnull, z),
        (
          share,
          refl,
          same-Apart mem p share inv (λ t. sym tail ∙ t)
              (λ a. ground (arith, ap (count a) split, ap (λ (q : Ptr). a == q) tail))
              (λ a z n. refl),
        ),
      )
  malloc-cases ptr (grows mem' ys p e pos taken inv next keeps tail split) fresh =
      let c = ptr + pointer_size in
      let share : Share = record { free = ys; live = c ∷ here.live; blocks = ptr ∷ here.blocks } in
      let new = fresh e pos in
      inr (
        c,
        mem',
        p,
        taken,
        λ z. ground (arith, z),
        (
          share,
          refl,
          Apart-update j mem' p share apart inv (λ a z. absurd (tail z))
              (λ i a ne u.
                let (m, same) = keeps a (outside ptr new i a ne u) in
                (m, ground (arith, same, apart.apart i j a ne, u))),
        ),
      )
