-- ===== src/Lock/Sections.antt =====
-- Data under core/lock/Spinlock.h, which threads change only between `Lock` and `Unlock`
-- (`ExclusiveLockHolder`), one access at a time and interleaved with all other threads. ThreadPool
-- and ClientManager use their lock in this way alone.
pub mod Atomic
mod Examples
use server_core.Common.{
  ℕ, zero, suc, ◌+◌, ◌^◌, ◌≤◌, ◌<◌, ◌≡◌, ◌≢◌, ◌⊎◌, inl, inr, refl, sym, ap, ◌∙◌, subst, List, [],
  ◌∷◌, ◌++◌, true, Option, none, some, get_elem?, set, get_elem?-set_self, get_elem?-set_ne, ◌==◌,
  if◌then◌else◌, arith, ne-or-eq, Bool-cases,
}
use mathlib.Core.Option.{some-injective}
use server_core.Common.Tally.{tally, tally_pos, le-tally}
use server_core.Lock.{
  Spinlock, Pc, Call, System, init, move, pick, step, holds, drain_readers, exchange_lock,
  test_lock,
}
use server_core.Lock
use server_core.Lock.Exclusion.{writers_exclude}

module _ {ℓ} {D : Type ℓ} where
  -- What a thread does to the data inside, access by access.
  abbrev pub run_body : D → (body : List (D → D)) → D
  run_body d [] = d
  run_body d (f ∷ fs) = run_body (f d) fs

  -- Whole sections, one after the other.
  abbrev pub serial : D → (sections : List (List (D → D))) → D
  serial d [] = d
  serial d (b ∷ bs) = serial (run_body d b) bs

  abbrev pub assign : (ℕ → List (D → D)) → ℕ → List (D → D) → ℕ → List (D → D)
  assign f i b j = if j == i then b else f j

module _ {ℓ} (D : Type ℓ) where
  -- `body` is the section that a thread is in, `todo` what is left of it; `done` are the sections
  -- that have ended, in order.
  pub record Guarded : Type ℓ where
    pub locks : System
    pub value : D
    pub body : ℕ → List (D → D)
    pub todo : ℕ → List (D → D)
    pub done : List (List (D → D))

  abbrev pub unused : (threads : ℕ) → D → Guarded
  unused threads d = record {
    locks = init threads;
    value = d;
    body = λ i. [];
    todo = λ i. [];
    done = [];
  }

  pub data Step (s : Guarded) : Guarded → Type ℓ where
    -- An access of the lock that does not end `Lock`, and is not `Unlock`.
    accesses :
        (i : ℕ) (c : Call) (p : Pc)
        → get_elem? s.locks.threads i ≡ some p
        → p ≢ Pc.writing
        → (step c s.locks.mem p).1 ≢ Pc.writing
        → Step s (record s { locks = move s.locks i c p })
    enters :
        (i : ℕ) (c : Call) (p : Pc) (b : List (D → D))
        → get_elem? s.locks.threads i ≡ some p
        → p ≢ Pc.writing
        → (step c s.locks.mem p).1 ≡ Pc.writing
        → Step s (record s {
          locks = move s.locks i c p;
          body = assign s.body i b;
          todo = assign s.todo i b;
        })
    works :
        (i : ℕ) (f : D → D) (fs : List (D → D))
        → get_elem? s.locks.threads i ≡ some Pc.writing
        → s.todo i ≡ f ∷ fs
        → Step s (record s { value = f s.value; todo = assign s.todo i fs })
    leaves :
        (i : ℕ) (c : Call)
        → get_elem? s.locks.threads i ≡ some Pc.writing
        → s.todo i ≡ []
        → Step s (record s { locks = move s.locks i c Pc.writing; done = s.done ++ s.body i ∷ [] })

  pub data Reach (threads : ℕ) (d : D) : Guarded → Type ℓ where
    start : Reach threads d (unused threads d)
    later : {s t : Guarded} → Reach threads d s → Step s t → Reach threads d t
