-- ===== src/Udp/Packet/Pooled/Contents.antt =====
-- What stands in the data of a packet: no call of the pool for another packet changes it.
use mathlib.Core.Option.{some-injective}
use server_core.Common.{
  ◌<◌, ◌≡◌, ◌≢◌, ◌⊎◌, inl, inr, refl, ap, sym, ◌∙◌, subst, some, ◌==◌, ◌>>=◌, count, arith,
  Bool-cases, Option-cases,
}
use server_core.MemoryPool.Memory.{Ptr, null}
use server_core.MemoryPool.ChunkPool.{ChunkPool}
use server_core.Udp.Packet.Owners.{end_packet}
use server_core.Udp.Packet.Owners.Histories.{owners_of}
use server_core.Udp.Packet.Pooled.{Packets, construct, destruct, is_last}
use server_core.Udp.Packet.Pooled.Histories.{
  Step, constructs, copied, moved, destructs, handed, completed, writes, Reach,
}
use server_core.Udp.Packet.Pooled.Lent.{
  Agree, Reach-Agree, Step-Agree, owned-held, last-held, end_packet-held,
}

module _ (chunks : ChunkPool) where
  construct-content :
      (s t : Packets chunks) (call : chunks.Call) (p : Ptr)
      → Agree chunks s
      → chunks.Answers s.data_pool s.owners.held call
      → construct chunks s call ≡ some t
      → 0 < count p s.owners.held
      → chunks.content t.data_pool p ≡ chunks.content s.data_pool p
  unfolding construct
  construct-content s t call p agree answers e k =
      elim (Option-cases (chunks.malloc s.data_pool call)) [
        | inl fails ↦ absurd (ground (arith, rw (◌>>=◌, fails) at e))
        | inr ((q, pool), given) ↦ elim (Bool-cases (q == null)) [
          | inl z ↦ absurd (ground (arith, rw (◌>>=◌, given, z) at e))
          | inr n ↦
              let result = some-injective _ _ (rw (◌>>=◌, given, n) at e) in
              ap (λ (u : Packets chunks). chunks.content u.data_pool p) (sym result)
              ∙ chunks.malloc-content call p agree.lent answers given k
        ]
      ]

  destruct-content :
      (s t : Packets chunks) (call : chunks.Call) (p q : Ptr)
      → Agree chunks s
      → 0 < count q s.owners.packets
      → destruct chunks s call q ≡ some t
      → 0 < count p s.owners.held
      → 0 < count p t.owners.held
      → chunks.content t.data_pool p ≡ chunks.content s.data_pool p
  unfolding destruct
  destruct-content s t call p q agree h e k k' = elim (Bool-cases (is_last chunks s.owners q)) [
    | inr shared ↦
        let result = some-injective _ _ (rw (destruct, shared) at e) in
        ap (λ (u : Packets chunks). chunks.content u.data_pool p) (sym result)
    | inl last ↦ elim (Option-cases (chunks.free s.data_pool call q)) [
      | inl fails ↦ absurd (ground (arith, rw (destruct, last, ◌>>=◌, fails) at e))
      | inr (pool, given) ↦
          let result : record { data_pool = pool; owners = end_packet s.owners q } ≡ t =
            some-injective _ _ (rw (destruct, last, ◌>>=◌, given) at e) in
          let left : 0 < count p (end_packet s.owners q).held =
            subst (λ (u : Packets chunks). 0 < count p u.owners.held) (sym result) k' in
          ap (λ (u : Packets chunks). chunks.content u.data_pool p) (sym result)
          ∙ chunks.free-content call q p agree.lent
              (last-held chunks s.owners q agree.reached h last) given k
              (rw (end_packet-held chunks s.owners q, last) at left)
    ]
  ]

  -- In every state that packets and their pool reach, over any pool that keeps the laws of
  -- `ChunkPool`, a step leaves the word at every data that is not null and has an owner before and
  -- after it, unless the step is a write of packets into data that they hold.
  pub packet_data_kept :
      (s t : Packets chunks) (p : Ptr)
      → Reach chunks s
      → Step chunks s t
      → p ≢ null
      → 0 < owners_of s.owners p
      → 0 < owners_of t.owners p
      → (chunks.content t.data_pool p ≡ chunks.content s.data_pool p)
        ⊎ chunks.Writes s.data_pool s.owners.held t.data_pool
  packet_data_kept s t p r step n k k' =
      let before = Reach-Agree chunks r in
      let after = Step-Agree chunks before step in
      kept s t step before (owned-held chunks s.owners p before.reached n k)
        (owned-held chunks t.owners p after.reached n k')
    where
      kept :
          (s t : Packets chunks)
          → Step chunks s t
          → Agree chunks s
          → 0 < count p s.owners.held
          → 0 < count p t.owners.held
          → (chunks.content t.data_pool p ≡ chunks.content s.data_pool p)
            ⊎ chunks.Writes s.data_pool s.owners.held t.data_pool
      kept s t (constructs call _ answers e) agree h h' =
          inl (construct-content s t call p agree answers e h)
      kept s t (destructs call q _ o e) agree h h' =
          inl (destruct-content s t call p q agree o e h h')
      kept s t (copied q o) agree h h' = inl refl
      kept s t (moved q o) agree h h' = inl refl
      kept s t (handed q owners o e) agree h h' = inl refl
      kept s t (completed q o) agree h h' = inl refl
      kept s t (writes pool w) agree h h' = inr w
