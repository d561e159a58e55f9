-- ===== src/Prelude/Maps.antt =====
-- The ordered maps and sets of the standard library: association lists in key order.
use Prim.Native.Nat.{ℕ}
use mathlib.Core.Path.{◌≡◌, refl}
use mathlib.Core.Bool.{Bool, ◌&&◌, ◌||◌}
use mathlib.Core.Option.{Option, none, some}
use mathlib.Core.List.{List, [], ◌∷◌, map}
use native.Mathlib.Omega.{arith}
use seqcache.Prelude.Tests.{ltb, ◌==◌, if◌then◌else◌}

module _ {ℓ} {V : Type ℓ} where
  abbrev pub get_key : ℕ → List (ℕ × V) → Option V
  get_key k [] = none
  get_key k ((j, v) ∷ m) = if j == k then some v else get_key k m

  -- Replaces the value of a key that is there.
  abbrev pub insert_key : ℕ → V → List (ℕ × V) → List (ℕ × V)
  insert_key k v [] = (k, v) ∷ []
  insert_key k v ((j, w) ∷ m) =
      if ltb k j
      then (k, v) ∷ (j, w) ∷ m
      else if k == j
      then (k, v) ∷ m
      else (j, w) ∷ insert_key k v m

  abbrev pub remove_key : ℕ → List (ℕ × V) → List (ℕ × V)
  remove_key k [] = []
  remove_key k ((j, v) ∷ m) = if j == k then remove_key k m else (j, v) ∷ remove_key k m

  abbrev pub values : List (ℕ × V) → List V
  values = map (λ e. e.1)

  pub get_key-insert_key :
      (k j : ℕ) (v : V) (m : List (ℕ × V))
      → get_key j (insert_key k v m) ≡ (if k == j then some v else get_key j m)
  get_key-insert_key k j v [] = refl
  get_key-insert_key k j v ((i, w) ∷ m) = ground (arith, get_key-insert_key k j v m)

  pub get_key-remove_key :
      (k j : ℕ) (m : List (ℕ × V))
      → get_key j (remove_key k m) ≡ (if k == j then none else get_key j m)
  get_key-remove_key k j [] = ground arith
  get_key-remove_key k j ((i, w) ∷ m) = ground (arith, get_key-remove_key k j m)

-- Pairs in lexicographic order, without repetitions.
abbrev pub pair_ltb : ℕ × ℕ → ℕ × ℕ → Bool
pair_ltb (a, b) (c, d) = ltb a c || (a == c && ltb b d)

abbrev pub pair_eq : ℕ × ℕ → ℕ × ℕ → Bool
pair_eq (a, b) (c, d) = a == c && b == d

abbrev pub insert_pair : ℕ × ℕ → List (ℕ × ℕ) → List (ℕ × ℕ)
insert_pair p [] = p ∷ []
insert_pair p (q ∷ s) =
    if pair_ltb p q then p ∷ q ∷ s else if pair_eq p q then q ∷ s else q ∷ insert_pair p s

abbrev pub remove_pair : ℕ × ℕ → List (ℕ × ℕ) → List (ℕ × ℕ)
remove_pair p [] = []
remove_pair p (q ∷ s) = if pair_eq p q then remove_pair p s else q ∷ remove_pair p s
