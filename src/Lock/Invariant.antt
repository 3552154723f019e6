-- ===== src/Lock/Invariant.antt =====
-- What the two fields of the lock say about its threads; kept by every step.
use server_core.Common.{
  ℕ, ◌+◌, ◌^◌, ◌≤◌, ◌<◌, ◌≡◌, refl, ◌∙◌, some, get_elem?, set, length, length-set, length-replicate,
  arith,
}
use server_core.Common.Tally.{tally, tally-set, tally-le, tally-replicate}
use server_core.Lock.{
  Pc, Call, System, Step, pick, Reach, start, later, init, move, step, holds, reads,
}

-- `lock_` counts the threads past the exchange, of which there is at most one; `reader_` counts
-- the readers inside.
pub record Inv (n : ℕ) (s : System) : Type 0 where
  pub size : length s.threads ≡ n
  pub owner : s.mem.lock_ ≡ tally holds s.threads
  pub single : s.mem.lock_ ≤ 1
  pub readers : s.mem.reader_ ≡ tally reads s.threads

holds-le : (p : Pc) → holds p ≤ 1
holds-le p = ground arith

reads-le : (p : Pc) → reads p ≤ 1
reads-le p = ground arith

pub init-Inv : (n : ℕ) → Inv n (init n)
init-Inv n = record {
  size = length-replicate n Pc.idle;
  owner = omega (arith, tally-replicate holds n Pc.idle refl);
  single = omega arith;
  readers = omega (arith, tally-replicate reads n Pc.idle refl);
}

module _ {n : ℕ} {s : System} (few : n < 2 ^ 32) (inv : Inv n s) where
  -- The counts after thread `i` has gone from `p` to `q`.
  record Moved (i : ℕ) (p q : Pc) : Type 0 where
    writers : tally holds (set s.threads i q) + holds p ≡ tally holds s.threads + holds q
    counted : tally reads (set s.threads i q) + reads p ≡ tally reads s.threads + reads q
    room : tally reads (set s.threads i q) < 2 ^ 32

  moved : (i : ℕ) (p q : Pc) → get_elem? s.threads i ≡ some p → Moved i p q
  moved i p q e = record {
    writers = tally-set holds s.threads i p q e;
    counted = tally-set reads s.threads i p q e;
    room =
        omega
          (arith, tally-le reads reads-le (set s.threads i q), length-set s.threads i q, inv.size);
  }

  step-counts :
      (i : ℕ) (c : Call) (p : Pc)
      → Moved i p (step c s.mem p).1
      → ((step c s.mem p).0.lock_ ≡ tally holds (set s.threads i (step c s.mem p).1))
        × ((step c s.mem p).0.lock_ ≤ 1)
        × ((step c s.mem p).0.reader_ ≡ tally reads (set s.threads i (step c s.mem p).1))
  unfolding step
  step-counts i c Pc.idle m = ground arith
  step-counts i c p m = ground arith

  pub move-Inv : (i : ℕ) (c : Call) (p : Pc) → get_elem? s.threads i ≡ some p → Inv n (move s i c p)
  move-Inv i c p e =
      let q = (step c s.mem p).1 in
      let facts = step-counts i c p (moved i p q e) in
      record {
        size = length-set s.threads i q ∙ inv.size;
        owner = facts.0;
        single = facts.1;
        readers = facts.2;
      }

pub Step-Inv : {n : ℕ} {s t : System} → n < 2 ^ 32 → Step s t → Inv n s → Inv n t
Step-Inv few (pick i c p e) inv = move-Inv few inv i c p e

pub Reach-Inv : {n : ℕ} {s : System} → n < 2 ^ 32 → Reach n s → Inv n s
Reach-Inv {n} few start = init-Inv n
Reach-Inv few (later r st) = Step-Inv few st (Reach-Inv few r)
