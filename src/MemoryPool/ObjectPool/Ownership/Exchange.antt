-- ===== src/MemoryPool/ObjectPool/Ownership/Exchange.antt =====
-- A chunk that a pool has just handed out, or has just been given back.
use server_core.Common.{
  ℕ, ◌≤◌, ◌<◌, ◌≡◌, ◌≢◌, inl, inr, ap, true, false, List, ◌∷◌, ◌==◌, arith, ne-or-eq, count,
}
use server_core.MemoryPool.Memory.{Ptr, null, Memory, erase, count-erase}
use server_core.MemoryPool.Pool.{Pool}
use server_core.MemoryPool.ObjectPool.{ObjectPool, update}
use server_core.MemoryPool.ObjectPool.Shares.{Share, used_le, Apart}
use server_core.MemoryPool.ObjectPool.Ownership.{Inv, live-used, held-live}

-- A chunk that a pool has just taken into use.
pub taken-Inv :
    (s : ObjectPool) (held : List Ptr) (shares : ℕ → Share) (id : ℕ) (c : Ptr) (mem : Memory)
    (p : Pool) (h : Share)
    → Inv s held shares
    → 0 < id
    → id ≤ s.thread_id_counter
    → c ≢ null
    → h.live ≡ c ∷ (shares id).live
    → Apart mem (update s.pools id p) (update shares id h)
    → (count c held ≡ 0)
      × Inv
          (record s { mem = mem; pools = update s.pools id p; owner = update s.owner c id })
          (c ∷ held)
          (update shares id h)
taken-Inv s held shares id c mem p h inv pos le nonnull live apart =
    let here : (id == id) ≡ true = ground arith in
    let lives = λ (a : Ptr). ap (λ (xs : List Ptr). count a xs) live in
    let once : count c (shares id).live ≡ 0 =
      ground
        (arith, used_le mem p h (rw here at (apart.fits id)) c, live-used p h c nonnull, lives c) in
    let alone : (i : ℕ) → i ≢ id → count c (shares i).live ≡ 0 = λ i ne.
      let there : (i == id) ≡ false = ground (arith, ne) in
      let both = rw (there, here) at (apart.apart i id c ne) in
      ground (
        arith,
        both,
        live-used p h c nonnull,
        live-used (s.pools i) (shares i) c nonnull,
        lives c,
      ) in
    let new : count c held ≡ 0 = elim (ne-or-eq (s.owner c) id) [
      | inl e ↦ omega (arith, inv.lent c, once, ap (λ (i : ℕ). count c (shares i).live) e)
      | inr ne ↦ omega (arith, inv.lent c, alone (s.owner c) ne)
    ] in
    (
      new,
      record {
        apart = apart;
        tagged = λ i a k. ground (arith, inv.tagged i a, k, lives a, alone i);
        lent = λ a. ground (arith, inv.lent a, lives a, new, once);
        unmade = λ i a k. ground (arith, inv.unmade i a, k, pos, le);
        numbered = inv.numbered;
        small = inv.small;
        kept = inv.kept;
      },
    )

-- A chunk that its pool has just been given back.
pub given-Inv :
    (s : ObjectPool) (held : List Ptr) (shares : ℕ → Share) (c : Ptr) (mem : Memory) (p : Pool)
    (h : Share)
    → Inv s held shares
    → 0 < count c held
    → h.live ≡ erase c (shares (s.owner c)).live
    → Apart mem (update s.pools (s.owner c) p) (update shares (s.owner c) h)
    → Inv
        (record s { mem = mem; pools = update s.pools (s.owner c) p })
        (erase c held)
        (update shares (s.owner c) h)
given-Inv s held shares c mem p h inv k live apart =
    let lives = λ (a : Ptr). ap (λ (xs : List Ptr). count a xs) live in
    let (in_share, _, pos, le) = held-live s held shares c inv k in
    let fewer = λ (a : Ptr). count-erase a c (shares (s.owner c)).live in_share in
    record {
      apart = apart;
      tagged = λ i a q. ground (arith, inv.tagged i a, q, lives a, fewer a);
      lent = λ a. ground (arith, inv.lent a, lives a, fewer a, count-erase a c held k);
      unmade = λ i a q. ground (arith, inv.unmade i a, q, pos, le);
      numbered = inv.numbered;
      small = inv.small;
      kept = inv.kept;
    }
