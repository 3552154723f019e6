-- ===== src/Common/Tally.antt =====
-- The weight of a list of threads, by where each thread stands, and how one move changes it.
use Prim.Native.Nat.{ℕ, zero, suc, ◌+◌, ◌≤◌}
use mathlib.Core.Path.{◌≡◌, refl}
use mathlib.Core.Logic.{◌≢◌, ◌⊎◌, inl, inr}
use mathlib.Core.List.{List, [], ◌∷◌}
use mathlib.Core.Option.{some}
use native.Mathlib.Omega.{arith}
use server_core.Common.Lists.{length, get_elem?, set, replicate}

zero-cases : (n : ℕ) → (n ≡ 0) ⊎ (0 ≢ n)
zero-cases zero = inl refl
zero-cases (suc n) = inr (λ e. omega arith)

module _ {ℓ} {A : Type ℓ} (w : A → ℕ) where
  abbrev pub tally : List A → ℕ
  tally [] = 0
  tally (x ∷ xs) = w x + tally xs

  -- A move of one thread trades its old weight for its new one.
  pub tally-set :
      (xs : List A) (i : ℕ) (x y : A)
      → get_elem? xs i ≡ some x
      → tally (set xs i y) + w x ≡ tally xs + w y
  tally-set [] i x y e = ground arith
  tally-set (z ∷ xs) zero x y e = ground arith
  tally-set (z ∷ xs) (suc i) x y e = omega (arith, tally-set xs i x y e)

  pub le-tally : (xs : List A) (i : ℕ) (x : A) → get_elem? xs i ≡ some x → w x ≤ tally xs
  le-tally [] i x e = ground arith
  le-tally (z ∷ xs) zero x e = ground arith
  le-tally (z ∷ xs) (suc i) x e = omega (arith, le-tally xs i x e)

  -- Two different threads weigh no more than all of them.
  pub add-le-tally :
      (xs : List A) (i j : ℕ) (x y : A)
      → get_elem? xs i ≡ some x
      → get_elem? xs j ≡ some y
      → i ≢ j
      → w x + w y ≤ tally xs
  add-le-tally [] i j x y p q h = ground arith
  add-le-tally (z ∷ xs) zero zero x y p q h = absurd (h refl)
  add-le-tally (z ∷ xs) zero (suc j) x y p q h = ground (arith, le-tally xs j y q)
  add-le-tally (z ∷ xs) (suc i) zero x y p q h = ground (arith, le-tally xs i x p)
  add-le-tally (z ∷ xs) (suc i) (suc j) x y p q h =
      omega (arith, add-le-tally xs i j x y p q (λ e. h (omega arith)))

  pub tally-le : ((a : A) → w a ≤ 1) → (xs : List A) → tally xs ≤ length xs
  tally-le small [] = omega arith
  tally-le small (x ∷ xs) = omega (arith, small x, tally-le small xs)

  pub tally-replicate : (n : ℕ) (a : A) → w a ≡ 0 → tally (replicate n a) ≡ 0
  tally-replicate zero a e = refl
  tally-replicate (suc n) a e = omega (arith, tally-replicate n a e)

  -- A list that weighs something has a thread that does.
  pub tally_pos :
      (xs : List A) → 0 ≢ tally xs → (i : ℕ) × (x : A) × (get_elem? xs i ≡ some x) × (0 ≢ w x)
  tally_pos [] h = absurd (h refl)
  tally_pos (x ∷ xs) h = elim (zero-cases (w x)) [
    | inl light ↦
        let (i, y, here, heavy) = tally_pos xs (λ z. h (omega arith)) in (suc i, y, here, heavy)
    | inr heavy ↦ (0, x, refl, heavy)
  ]
