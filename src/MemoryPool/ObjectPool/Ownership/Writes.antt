-- ===== src/MemoryPool/ObjectPool/Ownership/Writes.antt =====
-- Threads write into their chunks, and `::malloc` answers with a block.
use server_core.Common.{
  ℕ, ◌+◌, ◌≤◌, ◌<◌, ◌≡◌, inl, inr, subst, false, List, ◌==◌, ltb, arith, ne-or-eq, Bool-cases,
  count,
}
use server_core.MemoryPool.Memory.{Ptr, Memory}
use server_core.MemoryPool.ObjectPool.{ObjectPool, free}
use server_core.MemoryPool.ObjectPool.Shares.{Share, used_le, Fits-agree, listed-used}
use server_core.MemoryPool.ObjectPool.Moves.{region_end, live_ne_null, IsFreshFor}
use server_core.MemoryPool.ObjectPool.Histories.{IsFreshBlock}
use server_core.MemoryPool.ObjectPool.Ownership.{Inv, live-used, held-live}

-- Threads write into what they hold.
pub written-Inv :
    (s : ObjectPool) (held : List Ptr) (shares : ℕ → Share) (mem : Memory) (owner : Ptr → ℕ)
    → ((a : Ptr) → count a held ≡ 0 → mem a ≡ s.mem a)
    → ((a : Ptr) → 0 < count a held → owner a ≡ s.owner a)
    → Inv s held shares
    → Inv (record s { mem = mem; owner = owner }) held shares
written-Inv s held shares mem owner same tags inv = record {
  apart = record {
    fits = λ i.
        Fits-agree s.mem mem (s.pools i) (shares i) (inv.apart.fits i)
          (λ a c. same a (listed-free i a c));
    apart = inv.apart.apart;
    tailed = inv.apart.tailed;
  };
  tagged = λ i c k. ground (arith, inv.tagged i c, inv.lent c, tags c, k);
  lent = λ c. ground (arith, inv.lent c, tags c, inv.tagged (owner c) c);
  unmade = inv.unmade;
  numbered = inv.numbered;
  small = inv.small;
  kept = inv.kept;
}
  where
    listed-free :
        (i : ℕ) (a : Ptr)
        → 0 < count a (shares i).free + count a (shares i).blocks
        → count a held ≡ 0
    listed-free i a c = elim (Bool-cases (ltb 0 (count a held))) [
      | inr free ↦ ground (arith, free)
      | inl k ↦
          let (live, _, _, _) = held-live s held shares a inv (ground (arith, k)) in
          let nonnull = live_ne_null inv.apart (s.owner a) a live in
          let mine = live-used (s.pools (s.owner a)) (shares (s.owner a)) a nonnull in
          let listed = listed-used s.mem (s.pools i) (shares i) (inv.apart.fits i) a c in
          elim (ne-or-eq (s.owner a) i) [
            | inl e ↦
                let both = used_le s.mem (s.pools i) (shares i) (inv.apart.fits i) a in
                let live' : 0 < count a (shares i).live =
                  subst (λ (j : ℕ). 0 < count a (shares j).live) e live in
                absurd (ground (arith, both, live', c, nonnull))
            | inr ne ↦
                absurd (omega (arith, inv.apart.apart (s.owner a) i a ne, mine, live, listed))
          ]
    ]

module _ (s : ObjectPool) (held : List Ptr) (shares : ℕ → Share) (id : ℕ) (ptr : Ptr)
    (inv : Inv s held shares) (fresh : IsFreshBlock s held id ptr) where
  unused_at :
      (a : Ptr)
      → ptr ≤ a
      → a < region_end (s.pools id) ptr
      → (i : ℕ)
      → ((a == (s.pools i).storage.tail_) ≡ false)
        × (count a (shares i).free ≡ 0)
        × (count a (shares i).live ≡ 0)
        × (count a (shares i).blocks ≡ 0)
  unused_at a lo hi i =
      let (none_held, others) = fresh.unused a lo hi in
      let (not_tail, no_free, no_block) = others i in
      (
        not_tail,
        no_free (shares i).free (inv.apart.fits i).holds.linked,
        ground (arith, none_held, inv.tagged i a, inv.lent a),
        no_block (shares i).blocks (inv.apart.fits i).headers,
      )

  -- What the block of `::malloc` says of the concrete pools says it of their shares.
  pub fresh-IsFreshFor : IsFreshFor inv.apart id ptr
  fresh-IsFreshFor = record {
    own = record {
      nonnull = fresh.nonnull;
      in_space = fresh.in_space;
      unused = λ a lo hi. ground (arith, unused_at a lo hi id);
    };
    others = λ i a ne lo hi. ground (arith, unused_at a lo hi i);
  }
