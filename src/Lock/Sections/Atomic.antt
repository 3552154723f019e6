-- ===== src/Lock/Sections/Atomic.antt =====
-- Sections under the lock are atomic: they have the outcome of one after another.
use server_core.Common.{
  ℕ, ◌^◌, ◌<◌, ◌≡◌, ◌≢◌, ◌⊎◌, inl, inr, refl, sym, ap, ◌∙◌, subst, List, [], ◌∷◌, ◌++◌, true, some,
  get_elem?, set, get_elem?-set_self, get_elem?-set_ne, ◌==◌, arith, ne-or-eq,
}
use mathlib.Core.Option.{some-injective}
use server_core.Common.Tally.{tally, tally_pos, le-tally}
use server_core.Lock.{
  Spinlock, Pc, Call, System, init, move, pick, step, holds, drain_readers, exchange_lock,
  test_lock,
}
use server_core.Lock
use server_core.Lock.Exclusion.{writers_exclude}
use server_core.Lock.Sections.{
  run_body, serial, Guarded, assign, Step, accesses, enters, works, leaves, Reach, start, later,
}

module _ {ℓ} {D : Type ℓ} where
  serial-append :
      (d : D) (bs : List (List (D → D))) (b : List (D → D))
      → serial d (bs ++ b ∷ []) ≡ run_body (serial d bs) b
  serial-append d [] b = refl
  serial-append d (c ∷ bs) b = serial-append (run_body d c) bs b

-- The access of a thread that ends `Lock` is the last look at `reader_`.
entering : (c : Call) (m : Spinlock) (p : Pc) → (step c m p).1 ≡ Pc.writing → holds p ≡ 1
unfolding step
entering c m Pc.idle e = absurd (ground (arith, e))
entering c m Pc.locking e = absurd (ground (arith, e))
entering c m Pc.draining e = refl
entering c m Pc.writing e = absurd (ground (arith, e))
entering c m Pc.read_locking e = absurd (ground (arith, e))
entering c m Pc.tested e = absurd (ground (arith, e))
entering c m Pc.reading e = absurd (ground (arith, e))

abbrev writes : Pc → ℕ
writes Pc.writing = 1
writes _ = 0

writes_writing : (p : Pc) → 0 ≢ writes p → p ≡ Pc.writing
writes_writing Pc.writing h = refl
writes_writing p h = absurd (ground (arith, h))

module _ {ℓ} (D : Type ℓ) where
  record Inv (n : ℕ) (d : D) (s : Guarded D) : Type ℓ where
    locked : Lock.Reach n s.locks
    inside :
        (i : ℕ)
        → get_elem? s.locks.threads i ≡ some Pc.writing
        → run_body s.value (s.todo i) ≡ run_body (serial d s.done) (s.body i)
    outside : ((i : ℕ) → get_elem? s.locks.threads i ≢ some Pc.writing) → s.value ≡ serial d s.done

  -- A thread that writes after another's access of the lock wrote before it, if it is not that one.
  elsewhere :
      (s : Guarded D) (i j : ℕ) (q : Pc)
      → get_elem? (set s.locks.threads i q) j ≡ some Pc.writing
      → j ≢ i
      → get_elem? s.locks.threads j ≡ some Pc.writing
  elsewhere s i j q e n = sym (get_elem?-set_ne s.locks.threads j i q n) ∙ e

  module _ {n : ℕ} {d : D} {s : Guarded D} (few : n < 2 ^ 32) (inv : Inv n d s) where
    alone :
        (i j : ℕ) (p : Pc)
        → get_elem? s.locks.threads i ≡ some p
        → holds p ≡ 1
        → get_elem? s.locks.threads j ≡ some Pc.writing
        → j ≡ i
    alone i j p ei h ej = writers_exclude j i few inv.locked ej ei refl h

    accesses-Inv :
        (i : ℕ) (c : Call) (p : Pc)
        → get_elem? s.locks.threads i ≡ some p
        → p ≢ Pc.writing
        → (step c s.locks.mem p).1 ≢ Pc.writing
        → Inv n d (record s { locks = move s.locks i c p })
    accesses-Inv i c p e np nq =
        let q = (step c s.locks.mem p).1 in
        let here = get_elem?-set_self s.locks.threads i p q e in
        record {
          locked = Lock.later inv.locked (pick i c p e);
          inside = λ j w. elim (ne-or-eq j i) [
            | inl z ↦ absurd (
                nq (
                  some-injective _ _ (
                    sym here
                    ∙ subst (λ (k : ℕ). get_elem? (set s.locks.threads i q) k ≡ some Pc.writing) z
                        w)))
            | inr m ↦ inv.inside j (elsewhere s i j q w m)
          ];
          outside = λ nobody. inv.outside (λ j w. elim (ne-or-eq j i) [
            | inl z ↦ np (
                some-injective _ _
                  (sym e ∙ subst (λ (k : ℕ). get_elem? s.locks.threads k ≡ some Pc.writing) z w))
            | inr m ↦ nobody j (get_elem?-set_ne s.locks.threads j i q m ∙ w)
          ]);
        }

    enters-Inv :
        (i : ℕ) (c : Call) (p : Pc) (b : List (D → D))
        → get_elem? s.locks.threads i ≡ some p
        → p ≢ Pc.writing
        → (step c s.locks.mem p).1 ≡ Pc.writing
        → Inv n d (record s {
          locks = move s.locks i c p;
          body = assign s.body i b;
          todo = assign s.todo i b;
        })
    enters-Inv i c p b e np now =
        let q = (step c s.locks.mem p).1 in
        let here = get_elem?-set_self s.locks.threads i p q e in
        let nobody = λ (j : ℕ) (w : get_elem? s.locks.threads j ≡ some Pc.writing). np (
          some-injective _ _ (
            sym e
            ∙ subst (λ (k : ℕ). get_elem? s.locks.threads k ≡ some Pc.writing)
                (alone i j p e (entering c s.locks.mem p now) w) w)) in
        record {
          locked = Lock.later inv.locked (pick i c p e);
          inside = λ j w. elim (ne-or-eq j i) [
            | inl z ↦
                let at : (j == i) ≡ true = ground (arith, z) in
                rw at (ap (λ (x : D). run_body x b) (inv.outside nobody))
            | inr m ↦ absurd (nobody j (elsewhere s i j q w m))
          ];
          outside = λ none_in. absurd (none_in i (here ∙ ap some now));
        }

    works-Inv :
        (i : ℕ) (f : D → D) (fs : List (D → D))
        → get_elem? s.locks.threads i ≡ some Pc.writing
        → s.todo i ≡ f ∷ fs
        → Inv n d (record s { value = f s.value; todo = assign s.todo i fs })
    works-Inv i f fs e t = record {
      locked = inv.locked;
      inside = λ j w.
          let z : j ≡ i = alone i j Pc.writing e refl w in
          let at : (j == i) ≡ true = ground (arith, z) in
          let before = inv.inside i e in rw (at, z) (rw t at before);
      outside = λ nobody. absurd (nobody i e);
    }

    leaves-Inv :
        (i : ℕ) (c : Call)
        → get_elem? s.locks.threads i ≡ some Pc.writing
        → s.todo i ≡ []
        → Inv n d (record s { locks = move s.locks i c Pc.writing; done = s.done ++ s.body i ∷ [] })
    unfolding step
    leaves-Inv i c e t =
        let here = get_elem?-set_self s.locks.threads i Pc.writing Pc.idle e in
        record {
          locked = Lock.later inv.locked (pick i c Pc.writing e);
          inside = λ j w. elim (ne-or-eq j i) [
            | inl z ↦ absurd (
                ground (
                  arith,
                  subst (λ (k : ℕ). get_elem? (set s.locks.threads i Pc.idle) k ≡ some Pc.writing) z
                      w,
                  here,
                ))
            | inr m ↦ absurd (m (alone i j Pc.writing e refl (elsewhere s i j Pc.idle w m)))
          ];
          outside = λ _.
              let before = inv.inside i e in
              (rw t at before) ∙ sym (serial-append d s.done (s.body i));
        }

  Step-Inv : {n : ℕ} {d : D} {s t : Guarded D} → n < 2 ^ 32 → Inv n d s → Step D s t → Inv n d t
  Step-Inv few inv (accesses i c p e np nq) = accesses-Inv few inv i c p e np nq
  Step-Inv few inv (enters i c p b e np now) = enters-Inv few inv i c p b e np now
  Step-Inv few inv (works i f fs e t) = works-Inv few inv i f fs e t
  Step-Inv few inv (leaves i c e t) = leaves-Inv few inv i c e t

  Reach-Inv : {n : ℕ} {d : D} {s : Guarded D} → n < 2 ^ 32 → Reach D n d s → Inv n d s
  Reach-Inv {n} {d} few start = record {
    locked = Lock.start;
    inside = λ i w. refl;
    outside = λ _. refl;
  }
  Reach-Inv few (later r st) = Step-Inv few (Reach-Inv few r) st

  -- In every reachable state of fewer than 2 ^ 32 threads that change data only inside `Lock`,
  -- access by access and interleaved in any way: either no thread is inside, and the data is what
  -- the sections that have ended make of the first data one after another, in the order in which
  -- they ended; or a thread is inside, and what is left of its section leads where the whole
  -- section leads after those that have ended.
  pub sections_are_atomic :
      {n : ℕ} {d : D} {s : Guarded D}
      → n < 2 ^ 32
      → Reach D n d s
      → (((i : ℕ) → get_elem? s.locks.threads i ≢ some Pc.writing) × (s.value ≡ serial d s.done))
        ⊎ ((i : ℕ) × (get_elem? s.locks.threads i ≡ some Pc.writing)
            × (run_body s.value (s.todo i) ≡ serial d (s.done ++ s.body i ∷ [])))
  sections_are_atomic {n} {d} {s} few r =
      let inv = Reach-Inv few r in
      elim (ne-or-eq (tally writes s.locks.threads) 0) [
        | inl z ↦
            let nobody : (i : ℕ) → get_elem? s.locks.threads i ≢ some Pc.writing =
              λ i w. omega (arith, z, le-tally writes s.locks.threads i Pc.writing w) in
            inl (nobody, inv.outside nobody)
        | inr h ↦
            let (i, p, e, w) = tally_pos writes s.locks.threads (λ z. h (sym z)) in
            let at : p ≡ Pc.writing = writes_writing p w in
            let inside = e ∙ ap some at in
            inr (i, inside, inv.inside i inside ∙ sym (serial-append d s.done (s.body i)))
      ]
