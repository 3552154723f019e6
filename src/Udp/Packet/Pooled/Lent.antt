-- ===== src/Udp/Packet/Pooled/Lent.antt =====
-- What the pool lends is what the packets hold: the pool's laws are what `Packet.Owners` asks of it,
-- and the packets keep the pool's rules.
use mathlib.Core.Option.{some-injective}
use server_core.Common.{
  ◌<◌, ◌≡◌, ◌≢◌, inl, inr, refl, subst, ap, sym, true, false, List, some, ◌==◌, if◌then◌else◌,
  ◌>>=◌, count, arith, Bool-cases, Option-cases,
}
use server_core.MemoryPool.Memory.{Ptr, null, erase}
use server_core.MemoryPool.ChunkPool.{ChunkPool}
use server_core.Udp.Packet.Owners.{
  Owners, no_owners, make_packet, copy_packet, move_packet, end_packet, begin_write, end_write,
  release,
}
use server_core.Udp.Packet.Owners.Histories.{
  makes, copies, moves, ends, sends, sent, Later, now, then_step, no_owners-Inv, Later-Inv,
  owners_of,
}
use server_core.Udp.Packet.Pooled.{Packets, construct, destruct, is_last}
use server_core.Udp.Packet.Pooled.Histories.{
  Step, constructs, copied, moved, destructs, handed, completed, writes, Reach, start, later,
}

module _ (chunks : ChunkPool) where
  -- The pool lends what the packets hold.
  pub record Agree (s : Packets chunks) : Type 0 where
    pub lent : chunks.Lends s.data_pool s.owners.held
    pub reached : Later no_owners s.owners

  pub construct-Agree :
      (s t : Packets chunks) (call : chunks.Call)
      → Agree s
      → chunks.Answers s.data_pool s.owners.held call
      → construct chunks s call ≡ some t
      → (p : Ptr) × (p ≢ null)
        × (count p s.owners.held ≡ 0)
        × (t.owners ≡ make_packet s.owners p)
        × Agree t
  unfolding construct make_packet
  construct-Agree s t call agree answers e = elim (Option-cases (chunks.malloc s.data_pool call)) [
    | inl fails ↦ absurd (ground (arith, rw (◌>>=◌, fails) at e))
    | inr ((p, pool), given) ↦
        let (n, new, lent) = chunks.malloc-Lends call agree.lent answers given in
        let nonnull : (p == null) ≡ false = ground (arith, n) in
        let result : record { data_pool = pool; owners = make_packet s.owners p } ≡ t =
          some-injective _ _ (rw (◌>>=◌, given, nonnull) at e) in
        (
          p,
          n,
          new,
          ap (λ (u : Packets chunks). u.owners) (sym result),
          subst Agree result
              (record { lent = lent; reached = then_step agree.reached (makes p n new) }),
        )
  ]

  -- What the end of a packet leaves held.
  abbrev left_held : Owners → Ptr → List Ptr
  left_held s p = if is_last chunks s p then erase p s.held else s.held

  pub end_packet-held : (s : Owners) (p : Ptr) → (end_packet s p).held ≡ left_held s p
  unfolding end_packet release
  end_packet-held s p = elim (Bool-cases (p == null)) [
    | inl z ↦ rw z refl
    | inr n ↦ elim (Bool-cases (s.use_count p == 1)) [
      | inl one ↦ rw (n, one) refl
      | inr more ↦ rw (n, more) refl
    ]
  ]

  -- Data with an owner is held.
  pub owned-held :
      (s : Owners) (p : Ptr) → Later no_owners s → p ≢ null → 0 < owners_of s p → 0 < count p s.held
  owned-held s p r n k =
      let inv = Later-Inv no_owners-Inv r in ground (arith, inv.counted p n, inv.kept p n, k)

  pub last-held :
      (s : Owners) (p : Ptr)
      → Later no_owners s
      → 0 < count p s.packets
      → is_last chunks s p ≡ true
      → 0 < count p s.held
  last-held s p r k last = owned-held s p r (λ z. ground (arith, last, z)) (omega (arith, k))

  pub destruct-Agree :
      (s t : Packets chunks) (call : chunks.Call) (p : Ptr)
      → Agree s
      → 0 < count p s.owners.packets
      → destruct chunks s call p ≡ some t
      → Agree t
  unfolding destruct
  destruct-Agree s t call p agree k e =
      let reached = then_step agree.reached (ends p k) in
      elim (Bool-cases (is_last chunks s.owners p)) [
        | inr shared ↦
            let result : record s { owners = end_packet s.owners p } ≡ t =
              some-injective _ _ (rw (destruct, shared) at e) in
            subst Agree result (record {
              lent = rw (end_packet-held s.owners p, shared) agree.lent;
              reached = reached;
            })
        | inl last ↦ elim (Option-cases (chunks.free s.data_pool call p)) [
          | inl fails ↦ absurd (ground (arith, rw (destruct, last, ◌>>=◌, fails) at e))
          | inr (pool, given) ↦
              let result : record { data_pool = pool; owners = end_packet s.owners p } ≡ t =
                some-injective _ _ (rw (destruct, last, ◌>>=◌, given) at e) in
              subst Agree result (record {
                lent =
                    rw (end_packet-held s.owners p, last)
                      (chunks.free-Lends call p agree.lent
                        (last-held s.owners p agree.reached k last) given);
                reached = reached;
              })
        ]
      ]

  begin_write-held : (s t : Owners) (p : Ptr) → begin_write s p ≡ some t → t.held ≡ s.held
  unfolding begin_write
  begin_write-held s t p e = elim (Bool-cases (p == null)) [
    | inl z ↦ absurd (ground (arith, rw z at e))
    | inr n ↦
        subst (λ (u : Owners). u.held ≡ s.held) (some-injective _ _ (rw n at e)) (ground (arith, n))
  ]

  pub Step-Agree : {s t : Packets chunks} → Agree s → Step chunks s t → Agree t
  unfolding copy_packet move_packet end_write
  Step-Agree {s} agree (constructs call t answers e) = (construct-Agree s t call agree answers e).4
  Step-Agree {s} agree (copied p k) = record {
    lent = elim (Bool-cases (p == null)) [ inl z ↦ rw z agree.lent | inr n ↦ rw n agree.lent ];
    reached = then_step agree.reached (copies p k);
  }
  Step-Agree {s} agree (moved p k) = record {
    lent = agree.lent;
    reached = then_step agree.reached (moves p k);
  }
  Step-Agree {s} agree (destructs call p t k e) = destruct-Agree s t call p agree k e
  Step-Agree {s} agree (handed p owners k e) = record {
    lent = rw (begin_write-held s.owners owners p e) agree.lent;
    reached = then_step agree.reached (sends p owners k e);
  }
  Step-Agree {s} agree (completed p k) = record {
    lent = agree.lent;
    reached = then_step agree.reached (sent p k);
  }
  Step-Agree {s} agree (writes pool w) = record {
    lent = chunks.write-Lends agree.lent w;
    reached = agree.reached;
  }

  pub Reach-Agree : {s : Packets chunks} → Reach chunks s → Agree s
  Reach-Agree (start s i) = record { lent = chunks.initial-Lends i; reached = now }
  Reach-Agree (later r step) = Step-Agree (Reach-Agree r) step
