-- ===== src/Lock/Exclusion.antt =====
-- What the spinlock guarantees in every reachable state, whatever the schedule.
use server_core.Common.{
  ne-or-eq, get_elem?-set_ne, ℕ, ◌∙◌, ◌^◌, ◌≤◌, ◌<◌, ◌≡◌, ◌≢◌, inl, inr, refl, some, get_elem?,
  arith, ◌==◌, Bool-cases,
}
use server_core.Common.Tally.{tally, tally-set, le-tally, add-le-tally, tally_pos}
use server_core.Lock.{Pc, Call, System, pick, Reach, move, step, holds, reads, admitted}
use server_core.Lock.Invariant.{Inv, Reach-Inv, Step-Inv}

-- In every reachable state of fewer than 2 ^ 32 threads, two threads that have won the exchange of
-- `Lock` and not yet unlocked are the same thread.
pub writers_exclude :
    {n : ℕ} {s : System} {p q : Pc} (i j : ℕ)
    → n < 2 ^ 32
    → Reach n s
    → get_elem? s.threads i ≡ some p
    → get_elem? s.threads j ≡ some q
    → holds p ≡ 1
    → holds q ≡ 1
    → i ≡ j
writers_exclude {n} {s} {p} {q} i j few r ei ej hp hq = elim (ne-or-eq i j) [
  | inl e ↦ e
  | inr h ↦
      absurd (omega (arith, inv.owner, inv.single, add-le-tally holds s.threads i j p q ei ej h))
]
  where
    inv : Inv n s
    inv = Reach-Inv few r

-- A thread at `p` whose next access takes it elsewhere, whatever is asked for.
abbrev pub CanMove : System → Type 0
CanMove s =
    (j : ℕ) × (q : Pc) × (get_elem? s.threads j ≡ some q)
    × (q ≢ Pc.idle)
    × ((c : Call) → (step c s.mem q).1 ≢ q)

module _ {n : ℕ} {s : System} (inv : Inv n s) where
  reader-CanMove : 0 ≢ s.mem.reader_ → CanMove s
  unfolding step
  reader-CanMove h =
      let (j, q, e, w) = tally_pos reads s.threads (λ z. h (omega (arith, inv.readers))) in
      let at : q ≡ Pc.reading = ground arith in (j, q, e, ground arith, λ c. rw at (ground arith))

  holder-CanMove : 0 ≢ s.mem.lock_ → CanMove s
  unfolding step
  holder-CanMove h =
      let (j, q, e, w) = tally_pos holds s.threads (λ z. h (omega (arith, inv.owner))) in
      elim (Bool-cases (s.mem.reader_ == 0)) [
        | inl quiet ↦ (j, q, e, ground arith, λ c. ground arith)
        | inr busy ↦ reader-CanMove (ground arith)
      ]

  waiter-CanMove : (i : ℕ) (p : Pc) → get_elem? s.threads i ≡ some p → p ≢ Pc.idle → CanMove s
  unfolding step
  waiter-CanMove i Pc.idle e h = absurd (h refl)
  waiter-CanMove i p e h = elim (Bool-cases (s.mem.lock_ == 0)) [
    | inl free ↦ elim (Bool-cases (s.mem.reader_ == 0)) [
      | inl quiet ↦ (i, p, e, h, λ c. ground arith)
      | inr busy ↦ reader-CanMove (ground arith)
    ]
    | inr held ↦ holder-CanMove (ground arith)
  ]

-- In every reachable state of fewer than 2 ^ 32 threads where a thread is not outside the lock,
-- there is a thread, not outside the lock either, whose next access takes it to another point of
-- the code.
pub no_deadlock :
    {n : ℕ} {s : System} {p : Pc} (i : ℕ)
    → n < 2 ^ 32
    → Reach n s
    → get_elem? s.threads i ≡ some p
    → p ≢ Pc.idle
    → CanMove s
no_deadlock {p} i few r e h = waiter-CanMove (Reach-Inv few r) i p e h

-- Steps of the threads other than `i`.
pub data Others (i : ℕ) (s : System) : System → Type 0 where
  none_yet : Others i s s
  one_more :
      {t : System}
      → Others i s t
      → (j : ℕ) (c : Call) (p : Pc) → get_elem? t.threads j ≡ some p
      → i ≢ j
      → Others i s (move t j c p)

-- While `lock_` is 1, nobody is admitted: a reader on its way in can only finish, or leave.
step-admitted :
    (c : Call) (t : System) (p : Pc) → t.mem.lock_ ≡ 1 → admitted (step c t.mem p).1 ≤ admitted p
unfolding step
step-admitted c t Pc.idle e = ground arith
step-admitted c t p e = ground arith

record Section (n i : ℕ) (t : System) : Type 0 where
  inv : Inv n t
  here : get_elem? t.threads i ≡ some Pc.writing
  closed : tally admitted t.threads ≡ 0

Section-move :
    {n i : ℕ} {t : System}
    → n < 2 ^ 32
    → Section n i t
    → (j : ℕ) (c : Call) (p : Pc) → get_elem? t.threads j ≡ some p
    → i ≢ j
    → Section n i (move t j c p)
Section-move {n} {i} {t} few sec j c p e h = record {
  inv = Step-Inv few (pick j c p e) sec.inv;
  here = get_elem?-set_ne t.threads i j (step c t.mem p).1 h ∙ sec.here;
  closed = omega (
    arith,
    tally-set admitted t.threads j p (step c t.mem p).1 e,
    step-admitted c t p held,
    sec.closed,
  );
}
  where
    held : t.mem.lock_ ≡ 1
    held =
        omega (arith, sec.inv.owner, sec.inv.single, le-tally holds t.threads i Pc.writing sec.here)

Others-Section :
    {n i : ℕ} {s t : System} → n < 2 ^ 32 → Section n i s → Others i s t → Section n i t
Others-Section few sec none_yet = sec
Others-Section few sec (one_more o j c p e h) =
    Section-move few (Others-Section few sec o) j c p e h

-- From a reachable state of fewer than 2 ^ 32 threads where a thread is inside `Lock` and no thread
-- is reading or past the test of `ReadLock`, as long as the other threads step and the writer does
-- not, the writer stays inside, no thread reads, and no other thread writes.
pub writer_section :
    {n : ℕ} {s t : System} {q : Pc} (i j : ℕ)
    → n < 2 ^ 32
    → Reach n s
    → get_elem? s.threads i ≡ some Pc.writing
    → tally admitted s.threads ≡ 0
    → Others i s t
    → get_elem? t.threads j ≡ some q
    → (q ≢ Pc.reading) × ((q ≡ Pc.writing) → i ≡ j) × (get_elem? t.threads i ≡ some Pc.writing)
writer_section {n} {t} {q} i j few r here quiet o e =
    (λ z. absurd (ground (arith, light)), λ z. same z, sec.here)
  where
    sec : Section n i t
    sec = Others-Section few (record { inv = Reach-Inv few r; here = here; closed = quiet }) o

    light : admitted q ≡ 0
    light = omega (arith, le-tally admitted t.threads j q e, sec.closed)

    same : q ≡ Pc.writing → i ≡ j
    same z = elim (ne-or-eq i j) [
      | inl k ↦ k
      | inr h ↦ absurd (
          ground (
            arith,
            sec.inv.owner,
            sec.inv.single,
            add-le-tally holds t.threads i j Pc.writing q sec.here e h,
          ))
    ]
