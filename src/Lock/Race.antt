-- ===== src/Lock/Race.antt =====
-- What the spinlock does not guarantee: `ReadLock` tests `lock_` and counts itself in two separate
-- accesses, and a writer that comes between them goes in beside the reader.
use server_core.Common.{
  ℕ, ◌≡◌, ◌≢◌, ◌∙◌, sym, List, [], ◌∷◌, some, get_elem?, set, get_elem?-set_self, get_elem?-set_ne,
  Option-cases, inl, inr, arith,
}
use server_core.Lock.{Pc, Call, System, Reach, later, pick, run, turn}

turn-Reach : {n : ℕ} {s : System} (ic : ℕ × Call) → Reach n s → Reach n (turn s ic)
unfolding turn
turn-Reach {s} (i, c) r = elim (Option-cases (get_elem? s.threads i)) [
  | inl e ↦ rw (e, turn) r
  | inr (p, e) ↦ rw (e, turn) (later r (pick i c p e))
]

pub run-Reach : {n : ℕ} (cs : List (ℕ × Call)) {s : System} → Reach n s → Reach n (run s cs)
unfolding run
run-Reach [] r = r
run-Reach (ic ∷ cs) r = run-Reach cs (turn-Reach ic r)

module _ (s : System) (i : ℕ) (c : Call) where
  turn-locking :
      get_elem? s.threads i ≡ some Pc.locking
      → s.mem.lock_ ≡ 0
      → turn s (i, c)
        ≡ record { mem = record (s.mem) { lock_ = 1 }; threads = set s.threads i Pc.draining }
  unfolding turn
  turn-locking e free = ground arith

  turn-draining :
      get_elem? s.threads i ≡ some Pc.draining
      → s.mem.reader_ ≡ 0
      → turn s (i, c) ≡ record { mem = s.mem; threads = set s.threads i Pc.writing }
  unfolding turn
  turn-draining e quiet = ground arith

  turn-tested :
      get_elem? s.threads i ≡ some Pc.tested → (turn s (i, c)).threads ≡ set s.threads i Pc.reading
  unfolding turn
  turn-tested e = ground arith

-- From any reachable state where the lock is free and no reader is counted, with one thread at the
-- head of `Lock` and another between the test and the increment of `ReadLock`, a state is reachable
-- in which the first writes while the second reads.
pub writer_meets_reader :
    {n : ℕ} {s : System} (i j : ℕ) (c : Call)
    → Reach n s
    → s.mem.lock_ ≡ 0
    → s.mem.reader_ ≡ 0
    → get_elem? s.threads i ≡ some Pc.locking
    → get_elem? s.threads j ≡ some Pc.tested
    → i ≢ j
    → (t : System) × Reach n t
      × (get_elem? t.threads i ≡ some Pc.writing)
      × (get_elem? t.threads j ≡ some Pc.reading)
unfolding run
writer_meets_reader {s} i j c r free quiet ei ej h = (
  run s ((i, c) ∷ (i, c) ∷ (j, c) ∷ []),
  run-Reach ((i, c) ∷ (i, c) ∷ (j, c) ∷ []) r,
  rw
      (
        turn-locking s i c ei free,
        turn-draining t₁ i c (get_elem?-set_self s.threads i _ _ ei) quiet,
        turn-tested t₂ j c ej₂,
      )
      (get_elem?-set_ne t₂.threads i j Pc.reading h
        ∙ get_elem?-set_self t₁.threads i Pc.draining Pc.writing
            (get_elem?-set_self s.threads i _ _ ei)),
  rw
      (
        turn-locking s i c ei free,
        turn-draining t₁ i c (get_elem?-set_self s.threads i _ _ ei) quiet,
        turn-tested t₂ j c ej₂,
      )
      (get_elem?-set_self t₂.threads j Pc.tested Pc.reading ej₂),
)
  where
    t₁ : System
    t₁ = record { mem = record (s.mem) { lock_ = 1 }; threads = set s.threads i Pc.draining }

    t₂ : System
    t₂ = record { mem = t₁.mem; threads = set t₁.threads i Pc.writing }

    ej₂ : get_elem? t₂.threads j ≡ some Pc.tested
    ej₂ =
        get_elem?-set_ne t₁.threads j i Pc.writing (λ e. h (sym e))
        ∙ get_elem?-set_ne s.threads j i Pc.draining (λ e. h (sym e))
        ∙ ej
