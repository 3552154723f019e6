-- ===== src/Udp/Packet/Owners/Histories.antt =====
-- Histories of packets: data that has an owner is never given back, and data that was sent never is.
use server_core.Common.{
  ℕ, ◌+◌, ◌≤◌, ◌<◌, ◌≡◌, ◌≢◌, refl, subst, some, ◌==◌, if◌then◌else◌, count, arith, Bool-cases, inl,
  inr,
}
use mathlib.Core.Option.{some-injective}
use server_core.MemoryPool.Memory.{Ptr, null, count-erase}
use server_core.Udp.Packet.Owners.{
  Owners, no_owners, release, make_packet, copy_packet, move_packet, end_packet, begin_write,
  end_write,
}

-- `data_pool_` hands out chunks that are not held: `Packet.Pooled` has the pool beside the packets.
pub data Step (s : Owners) : Owners → Type 0 where
  makes : (p : Ptr) → p ≢ null → count p s.held ≡ 0 → Step s (make_packet s p)
  copies : (p : Ptr) → 0 < count p s.packets → Step s (copy_packet s p)
  moves : (p : Ptr) → 0 < count p s.packets → Step s (move_packet s p)
  ends : (p : Ptr) → 0 < count p s.packets → Step s (end_packet s p)
  sends : (p : Ptr) (t : Owners) → 0 < count p s.packets → begin_write s p ≡ some t → Step s t
  sent : (p : Ptr) → 0 < count p s.writes → Step s (end_write s p)

pub data Later (s : Owners) : Owners → Type 0 where
  now : Later s s
  then_step : {t u : Owners} → Later s t → Step t u → Later s u

abbrev pub owners_of : Owners → Ptr → ℕ
owners_of s p = count p s.packets + count p s.writes + count p s.lost

-- The count is that of the owners, and the data that has one is held once.
pub record Inv (s : Owners) : Type 0 where
  pub counted : (p : Ptr) → p ≢ null → s.use_count p ≡ owners_of s p
  pub kept : (p : Ptr) → p ≢ null → count p s.held ≡ (if s.use_count p == 0 then 0 else 1)

pub no_owners-Inv : Inv no_owners
no_owners-Inv = record { counted = λ p n. refl; kept = λ p n. refl }

end_packet-Inv : (s : Owners) (p : Ptr) → Inv s → 0 < count p s.packets → Inv (end_packet s p)
unfolding end_packet release
end_packet-Inv s p inv k =
    let fewer = λ (q : Ptr). count-erase q p s.packets k in
    elim (Bool-cases (p == null)) [
      | inl z ↦ rw z (record {
        counted = λ q m. ground (arith, inv.counted q m, fewer q, z, m);
        kept = λ q m. inv.kept q m;
      })
      | inr n ↦
          let owned : s.use_count p ≡ owners_of s p = inv.counted p (λ e. ground (arith, n, e)) in
          let is_held = inv.kept p (λ e. ground (arith, n, e)) in
          elim (Bool-cases (s.use_count p == 1)) [
            | inl one ↦
                let once : 0 < count p s.held = ground (arith, one, is_held) in
                rw (n, one)
                  (record {
                    counted = λ q m. ground (arith, inv.counted q m, fewer q, owned, one);
                    kept = λ q m.
                        ground (arith, inv.kept q m, one, count-erase q p s.held once, is_held);
                  })
            | inr more ↦
                rw (n, more)
                  (record {
                    counted = λ q m. ground (arith, inv.counted q m, fewer q, owned, k);
                    kept = λ q m. ground (arith, inv.kept q m, more, owned, k);
                  })
          ]
    ]

begin_write-Inv :
    (s t : Owners) (p : Ptr) → Inv s → 0 < count p s.packets → begin_write s p ≡ some t → Inv t
unfolding begin_write
begin_write-Inv s t p inv k e = elim (Bool-cases (p == null)) [
  | inl z ↦ absurd (ground (arith, rw z at e))
  | inr n ↦ subst Inv (some-injective _ _ (rw n at e)) (record {
    counted = λ q m. ground (arith, inv.counted q m);
    kept = λ q m. ground (arith, inv.kept q m, inv.counted q m, k);
  })
]

pub Step-Inv : {s t : Owners} → Inv s → Step s t → Inv t
unfolding make_packet copy_packet move_packet end_write
Step-Inv {s} inv (makes p n new) = record {
  counted = λ q m. ground (arith, inv.counted q m, inv.kept q m, new);
  kept = λ q m. ground (arith, inv.kept q m, new);
}
Step-Inv {s} inv (copies p k) = record {
  counted = λ q m. ground (arith, inv.counted q m);
  kept = λ q m. ground (arith, inv.kept q m, inv.counted q m, k);
}
Step-Inv {s} inv (moves p k) = record {
  counted = λ q m. ground (arith, inv.counted q m, count-erase q p s.packets k);
  kept = λ q m. inv.kept q m;
}
Step-Inv {s} inv (ends p k) = end_packet-Inv s p inv k
Step-Inv {s} inv (sends p t k e) = begin_write-Inv s t p inv k e
Step-Inv {s} inv (sent p k) = record {
  counted = λ q m. ground (arith, inv.counted q m, count-erase q p s.writes k);
  kept = λ q m. inv.kept q m;
}

pub Later-Inv : {s t : Owners} → Inv s → Later s t → Inv t
Later-Inv inv now = inv
Later-Inv inv (then_step l step) = Step-Inv (Later-Inv inv l) step

-- Owners that a packet's end does not take away.
abbrev pub sending : Owners → Ptr → ℕ
sending s p = count p s.writes + count p s.lost

Step-sending : {s t : Owners} (p : Ptr) → Step s t → sending s p ≤ sending t p
unfolding make_packet copy_packet move_packet end_packet release begin_write end_write
Step-sending p (makes q n new) = omega arith
Step-sending {s} p (copies q k) = elim (Bool-cases (q == null)) [
  | inl z ↦ rw z (omega arith)
  | inr n ↦ rw n (omega arith)
]
Step-sending p (moves q k) = omega arith
Step-sending {s} p (ends q k) = elim (Bool-cases (q == null)) [
  | inl z ↦ rw z (omega arith)
  | inr n ↦ elim (Bool-cases (s.use_count q == 1)) [
    | inl one ↦ rw (n, one) (omega arith)
    | inr more ↦ rw (n, more) (omega arith)
  ]
]
Step-sending {s} {t} p (sends q _ k e) = elim (Bool-cases (q == null)) [
  | inl z ↦ absurd (ground (arith, rw z at e))
  | inr n ↦
      subst (λ (u : Owners). sending s p ≤ sending u p) (some-injective _ _ (rw n at e))
        (ground arith)
]
Step-sending {s} p (sent q k) = ground (arith, count-erase p q s.writes k)

Later-sending : {s t : Owners} (p : Ptr) → Later s t → sending s p ≤ sending t p
Later-sending p now = omega arith
Later-sending p (then_step l step) = omega (arith, Later-sending p l, Step-sending p step)

-- In every state that packets reach by being made, copied, moved, sent and destroyed, as long as
-- the pool hands out memory that is not held: the count of shared data is the number of the packets
-- and write requests that own it, those counted whose memory was given back without a destructor;
-- and the data is held from the pool once if it has an owner, and else not at all.
pub owned_data_held :
    (s : Owners) (p : Ptr)
    → Later no_owners s
    → p ≢ null
    → (s.use_count p ≡ owners_of s p) × (count p s.held ≡ (if owners_of s p == 0 then 0 else 1))
owned_data_held s p r n =
    let inv = Later-Inv no_owners-Inv r in
    (inv.counted p n, ground (arith, inv.counted p n, inv.kept p n))

-- Once a packet has been handed to `Send`, in a state that packets reach, its data is held from the
-- pool in every later state, whatever packets are destroyed and whatever requests complete.
pub sent_data_kept :
    (s t : Owners) (p : Ptr)
    → Later no_owners s
    → p ≢ null
    → 0 < sending s p
    → Later s t
    → count p t.held ≡ 1
sent_data_kept s t p r n k l =
    let inv = Later-Inv (Later-Inv no_owners-Inv r) l in
    ground (arith, inv.counted p n, inv.kept p n, Later-sending p l, k)
