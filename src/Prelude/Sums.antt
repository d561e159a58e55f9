-- ===== src/Prelude/Sums.antt =====
-- Totals over a list, and what a write in place does to them.
use Prim.Native.Nat.{ℕ, zero, suc, ◌+◌, ◌≤◌}
use mathlib.Core.Path.{◌≡◌}
use mathlib.Core.Bool.{Bool}
use mathlib.Core.Option.{some}
use mathlib.Core.List.{List, [], ◌∷◌, ◌++◌}
use native.Mathlib.Omega.{arith}
use seqcache.Prelude.Tests.{if◌then◌else◌}
use seqcache.Prelude.Lists.{get_elem?, set}

module _ {ℓ} {A : Type ℓ} (f : A → ℕ) where
  abbrev pub sum_by : List A → ℕ
  sum_by [] = 0
  sum_by (x ∷ xs) = f x + sum_by xs

  pub sum_by-append : (xs ys : List A) → sum_by (xs ++ ys) ≡ sum_by xs + sum_by ys
  sum_by-append [] ys = omega arith
  sum_by-append (x ∷ xs) ys = omega (arith, sum_by-append xs ys)

  -- A write moves the total by the difference of the two items.
  pub sum_by-set :
      (xs : List A) (i : ℕ) (v : A) {w : A}
      → get_elem? xs i ≡ some w
      → sum_by (set xs i v) + f w ≡ sum_by xs + f v
  sum_by-set [] i v h = ground arith
  sum_by-set (x ∷ xs) zero v h = ground arith
  sum_by-set (x ∷ xs) (suc i) v h = omega (arith, sum_by-set xs i v h)

  pub le-sum_by : (xs : List A) (i : ℕ) {w : A} → get_elem? xs i ≡ some w → f w ≤ sum_by xs
  le-sum_by [] i h = ground arith
  le-sum_by (x ∷ xs) zero h = ground arith
  le-sum_by (x ∷ xs) (suc i) h = omega (arith, le-sum_by xs i h)

abbrev pub indicator : Bool → ℕ
indicator b = if b then 1 else 0

abbrev pub count_by {ℓ} : {A : Type ℓ} → (A → Bool) → List A → ℕ
count_by p = sum_by (λ a. indicator (p a))
