-- ===== src/Udp/Packet/Pooled/Calls.antt =====
-- What a constructor and a destructor of packets come to over any pool that keeps its laws.
use server_core.Common.{
  ◌<◌, ◌≡◌, ◌≢◌, inl, inr, refl, subst, ap, sym, true, ◌∷◌, some, ◌>>=◌, count, arith, Bool-cases,
}
use server_core.MemoryPool.Memory.{Ptr, null, count-erase}
use server_core.MemoryPool.ChunkPool.{ChunkPool}
use server_core.Udp.Packet.Owners.{Owners, make_packet, end_packet}
use server_core.Udp.Packet.Owners.Histories.{no_owners-Inv, Later-Inv, owners_of}
use server_core.Udp.Packet.Pooled.{Packets, construct, destruct, is_last}
use server_core.Udp.Packet.Pooled.Histories.{Reach}
use server_core.Udp.Packet.Pooled.Lent.{
  Reach-Agree, construct-Agree, destruct-Agree, last-held, end_packet-held,
}

module _ (chunks : ChunkPool) where
  -- In every state that packets and their pool reach, over any pool that keeps the laws of
  -- `ChunkPool`: if a constructor that takes new data returns, when the system answers the pool as
  -- it must, the new packet's data is not null, had no owner before and has one now, and the pool
  -- lends it beside all that it had lent.
  pub new_data_unowned :
      (s t : Packets chunks) (call : chunks.Call)
      → Reach chunks s
      → chunks.Answers s.data_pool s.owners.held call
      → construct chunks s call ≡ some t
      → (p : Ptr) × (t.owners.packets ≡ p ∷ s.owners.packets)
        × (p ≢ null)
        × (owners_of s.owners p ≡ 0)
        × (owners_of t.owners p ≡ 1)
        × chunks.Lends t.data_pool (p ∷ s.owners.held)
  unfolding make_packet
  new_data_unowned s t call r answers e =
      let agree = Reach-Agree chunks r in
      let (p, n, new, made, after) = construct-Agree chunks s t call agree answers e in
      let inv = Later-Inv no_owners-Inv agree.reached in
      let unowned : owners_of s.owners p ≡ 0 = ground (arith, inv.counted p n, inv.kept p n, new) in
      (
        p,
        ap (λ (o : Owners). o.packets) made,
        n,
        unowned,
        subst (λ (o : Owners). owners_of o p ≡ 1) (sym made) (ground (arith, unowned)),
        subst (λ (o : Owners). chunks.Lends t.data_pool o.held) made after.lent,
      )

  -- In every state that packets and their pool reach, over any pool that keeps the laws of
  -- `ChunkPool`, the destructor of a packet returns when the pool serves the call: the packets own
  -- what `end_packet` leaves them, the pool lends exactly what they still hold, and if the packet
  -- was the last owner of its data, that is not held any more.
  pub destruct-some :
      (s : Packets chunks) (call : chunks.Call) (p : Ptr)
      → Reach chunks s
      → 0 < count p s.owners.packets
      → chunks.Serves s.data_pool call
      → (t : Packets chunks) × (destruct chunks s call p ≡ some t)
        × (t.owners ≡ end_packet s.owners p)
        × chunks.Lends t.data_pool t.owners.held
        × (is_last chunks s.owners p ≡ true → count p t.owners.held ≡ 0)
  unfolding destruct
  destruct-some s call p r k serves =
      let agree = Reach-Agree chunks r in
      let inv = Later-Inv no_owners-Inv agree.reached in
      elim (Bool-cases (is_last chunks s.owners p)) [
        | inr shared ↦
            let t : Packets chunks = record s { owners = end_packet s.owners p } in
            let e : destruct chunks s call p ≡ some t = rw (destruct, shared) refl in
            (
              t,
              e,
              refl,
              (destruct-Agree chunks s t call p agree k e).lent,
              λ last. absurd (ground (arith, last, shared)),
            )
        | inl last ↦
            let is_held = last-held chunks s.owners p agree.reached k last in
            let (pool, given) = chunks.free-some call p agree.lent is_held serves in
            let t : Packets chunks = record { data_pool = pool; owners = end_packet s.owners p } in
            let e : destruct chunks s call p ≡ some t = rw (destruct, last, ◌>>=◌, given) refl in
            (
              t,
              e,
              refl,
              (destruct-Agree chunks s t call p agree k e).lent,
              λ _.
                  rw (end_packet-held chunks s.owners p, last)
                    (ground (
                      arith,
                      last,
                      inv.kept p (λ z. ground (arith, last, z)),
                      count-erase p p s.owners.held is_held,
                    )),
            )
      ]
