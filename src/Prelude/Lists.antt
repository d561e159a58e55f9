-- ===== src/Prelude/Lists.antt =====
-- Lists over the native numbers: a vector read by an index, written in place, split, and searched.
use Prim.Native.Nat.{ℕ, zero, suc, ◌+◌, ◌≤◌, ◌<◌}
use mathlib.Core.Path.{ap, ◌≡◌, refl, subst}
use mathlib.Core.Logic.{◌⊎◌, inl, inr}
use mathlib.Core.Bool.{Bool, true, false, ◌||◌}
use mathlib.Core.Option.{Option, none, some}
use mathlib.Core.List.{List, [], ◌∷◌, ◌++◌}
use native.Mathlib.Omega.{arith}
use seqcache.Prelude.Tests.{◌==◌, if◌then◌else◌}

module _ {ℓ} {A : Type ℓ} where
  abbrev pub length : List A → ℕ
  length [] = 0
  length (x ∷ xs) = suc (length xs)

  abbrev pub get_elem? : List A → ℕ → Option A
  get_elem? [] i = none
  get_elem? (x ∷ xs) zero = some x
  get_elem? (x ∷ xs) (suc i) = get_elem? xs i

  -- A write out of bounds changes nothing.
  abbrev pub set : List A → ℕ → A → List A
  set [] i v = []
  set (x ∷ xs) zero v = v ∷ xs
  set (x ∷ xs) (suc i) v = x ∷ set xs i v

  abbrev pub take : ℕ → List A → List A
  take zero xs = []
  take (suc n) [] = []
  take (suc n) (x ∷ xs) = x ∷ take n xs

  abbrev pub drop : ℕ → List A → List A
  drop zero xs = xs
  drop (suc n) [] = []
  drop (suc n) (x ∷ xs) = drop n xs

  abbrev pub get_last? : List A → Option A
  get_last? [] = none
  get_last? (x ∷ []) = some x
  get_last? (x ∷ y ∷ xs) = get_last? (y ∷ xs)

  abbrev pub filter_by : (A → Bool) → List A → List A
  filter_by p [] = []
  filter_by p (x ∷ xs) = if p x then x ∷ filter_by p xs else filter_by p xs

  abbrev pub any_of : (A → Bool) → List A → Bool
  any_of p [] = false
  any_of p (x ∷ xs) = p x || any_of p xs

  abbrev pub All {κ} : (A → Type κ) → List A → Type κ
  All P [] = Unit
  All P (x ∷ xs) = P x × All P xs

  abbrev pub is_some : Option A → Bool
  is_some none = false
  is_some (some a) = true

  abbrev pub unwrap_or : Option A → A → A
  unwrap_or none d = d
  unwrap_or (some a) d = a

  pub length-append : (xs ys : List A) → length (xs ++ ys) ≡ length xs + length ys
  length-append [] ys = omega arith
  length-append (x ∷ xs) ys = omega (arith, length-append xs ys)

  pub length-set : (xs : List A) (i : ℕ) (v : A) → length (set xs i v) ≡ length xs
  length-set [] i v = refl
  length-set (x ∷ xs) zero v = refl
  length-set (x ∷ xs) (suc i) v = omega (arith, length-set xs i v)

  -- A value that is written over and written back.
  pub set-set_back :
      (xs : List A) (i : ℕ) (w : A) {v : A} → get_elem? xs i ≡ some v → set (set xs i w) i v ≡ xs
  set-set_back [] i w at = refl
  set-set_back (x ∷ xs) zero w at = ap (λ y. y ∷ xs) (cc at)
  set-set_back (x ∷ xs) (suc i) w at = ap (λ ys. x ∷ ys) (set-set_back xs i w at)

  pub get_elem?-lt : (xs : List A) (i : ℕ) {v : A} → get_elem? xs i ≡ some v → i < length xs
  get_elem?-lt [] i h = ground arith
  get_elem?-lt (x ∷ xs) zero h = omega arith
  get_elem?-lt (x ∷ xs) (suc i) h = omega (arith, get_elem?-lt xs i h)

  pub get_elem?-set_self :
      (xs : List A) (i : ℕ) (v : A) → i < length xs → get_elem? (set xs i v) i ≡ some v
  get_elem?-set_self [] i v h = absurd (omega arith)
  get_elem?-set_self (x ∷ xs) zero v h = refl
  get_elem?-set_self (x ∷ xs) (suc i) v h = get_elem?-set_self xs i v (omega arith)

  pub get_elem?-set_ne :
      (xs : List A) (i j : ℕ) (v : A) → (i ≡ j → ⊥) → get_elem? (set xs i v) j ≡ get_elem? xs j
  get_elem?-set_ne [] i j v h = refl
  get_elem?-set_ne (x ∷ xs) zero zero v h = absurd (h refl)
  get_elem?-set_ne (x ∷ xs) zero (suc j) v h = refl
  get_elem?-set_ne (x ∷ xs) (suc i) zero v h = refl
  get_elem?-set_ne (x ∷ xs) (suc i) (suc j) v h = get_elem?-set_ne xs i j v (λ e. h (omega arith))

  pub get_elem?-append_left :
      (xs ys : List A) (i : ℕ) → i < length xs → get_elem? (xs ++ ys) i ≡ get_elem? xs i
  get_elem?-append_left [] ys i h = absurd (omega arith)
  get_elem?-append_left (x ∷ xs) ys zero h = refl
  get_elem?-append_left (x ∷ xs) ys (suc i) h = get_elem?-append_left xs ys i (omega arith)

  pub get_elem?-append_length :
      (xs ys : List A) (v : A) → get_elem? (xs ++ v ∷ ys) (length xs) ≡ some v
  get_elem?-append_length [] ys v = refl
  get_elem?-append_length (x ∷ xs) ys v = get_elem?-append_length xs ys v

  pub take-append-drop : (n : ℕ) (xs : List A) → take n xs ++ drop n xs ≡ xs
  take-append-drop zero xs = refl
  take-append-drop (suc n) [] = refl
  take-append-drop (suc n) (x ∷ xs) = ground (arith, take-append-drop n xs)

module _ {ℓ κ} {A : Type ℓ} (P : A → Type κ) where
  -- What holds of the value, if there is one.
  abbrev pub OnSome : Option A → Type κ
  OnSome none = Unit
  OnSome (some a) = P a

  pub OnSome-intro : (o : Option A) → ((a : A) → o ≡ some a → P a) → OnSome o
  OnSome-intro none h = tt
  OnSome-intro (some a) h = h a refl

  pub OnSome-elim : (o : Option A) {a : A} → OnSome o → o ≡ some a → P a
  OnSome-elim none h e = absurd (cc e)
  OnSome-elim (some b) h e = let same : b ≡ _ = cc e in subst P same h

module _ {ℓ} {A : Type ℓ} where
  pub get_elem?-set :
      (xs : List A) (i j : ℕ) (v : A)
      → i < length xs
      → get_elem? (set xs i v) j ≡ (if j == i then some v else get_elem? xs j)
  get_elem?-set [] i j v h = absurd (omega arith)
  get_elem?-set (x ∷ xs) zero zero v h = refl
  get_elem?-set (x ∷ xs) zero (suc j) v h = ground arith
  get_elem?-set (x ∷ xs) (suc i) zero v h = ground arith
  get_elem?-set (x ∷ xs) (suc i) (suc j) v h = ground (arith, get_elem?-set xs i j v)

  pub get_elem?-push :
      (xs : List A) (v : A) (i : ℕ)
      → get_elem? (xs ++ v ∷ []) i ≡ (if i == length xs then some v else get_elem? xs i)
  get_elem?-push [] v zero = refl
  get_elem?-push [] v (suc i) = ground arith
  get_elem?-push (x ∷ xs) v zero = ground arith
  get_elem?-push (x ∷ xs) v (suc i) = ground (arith, get_elem?-push xs v i)

  pub List-cases : (xs : List A) → (xs ≡ []) ⊎ ((y : A) × (ys : List A) × (xs ≡ y ∷ ys))
  List-cases [] = inl refl
  List-cases (y ∷ ys) = inr (y, ys, refl)

  pub get_elem?_past : (xs : List A) (i : ℕ) → length xs ≤ i → get_elem? xs i ≡ none
  get_elem?_past [] i h = refl
  get_elem?_past (x ∷ xs) zero h = absurd (omega arith)
  get_elem?_past (x ∷ xs) (suc i) h = get_elem?_past xs i (omega arith)

  pub get_elem?_within : (xs : List A) (i : ℕ) → i < length xs → (v : A) × (get_elem? xs i ≡ some v)
  get_elem?_within [] i h = absurd (omega arith)
  get_elem?_within (x ∷ xs) zero h = (x, refl)
  get_elem?_within (x ∷ xs) (suc i) h = get_elem?_within xs i (omega arith)

module _ {ℓ κ} {A : Type ℓ} (P : A → Type κ) where
  pub All-get_elem? : (xs : List A) (i : ℕ) {v : A} → All P xs → get_elem? xs i ≡ some v → P v
  All-get_elem? [] i h e = absurd (cc e)
  All-get_elem? (x ∷ xs) zero (here, there) e = let same : x ≡ _ = cc e in subst P same here
  All-get_elem? (x ∷ xs) (suc i) (here, there) e = All-get_elem? xs i there e

  pub All-set : (xs : List A) (i : ℕ) (v : A) → P v → All P xs → All P (set xs i v)
  All-set [] i v p h = tt
  All-set (x ∷ xs) zero v p (here, there) = (p, there)
  All-set (x ∷ xs) (suc i) v p (here, there) = (here, All-set xs i v p there)

  pub All-append : (xs ys : List A) → All P xs → All P ys → All P (xs ++ ys)
  All-append [] ys h k = k
  All-append (x ∷ xs) ys (here, there) k = (here, All-append xs ys there k)
