-- ===== src/Arena/Written.antt =====
-- An arena after an assignment through a handle.
use seqcache.Prelude.{
  set, get_elem?-lt, get_elem?-set_self, ℕ, zero, suc, List, [], ◌∷◌, get_elem?-set_ne, refl, ◌≡◌,
  ap, some, get_elem?, set-set_back, get_elem?-lt, get_elem?-set_self, arith,
}
use seqcache.Arena.{Handle, Arena, slot_of, resolve, write}

module _ {A : Type 0} (a : Arena A) (id : Handle) {v : A} (live : resolve a id ≡ some v) where
  located : get_elem? a.slots id.slot ≡ some (record { generation = id.generation; value = some v })
  unfolding resolve slot_of
  located = ground arith

  -- A value that is written over and written back.
  pub write-write_back : (w : A) → write (write a id w) id v ≡ a
  unfolding write
  write-write_back w =
      ap (λ slots. record a { slots = slots })
        (set-set_back a.slots id.slot (record { generation = id.generation; value = some w })
          located)

  -- A handle that resolves then resolves to what is written.
  pub resolve-write : (w : A) → resolve (write a id w) id ≡ some w
  unfolding write resolve slot_of
  resolve-write w =
      let at =
        get_elem?-set_self a.slots id.slot (record { generation = id.generation; value = some w })
          (get_elem?-lt a.slots id.slot located) in
      rw at (ground arith)

-- Two assignments at different places, in either order.
set-set :
    {A : Type 0} (xs : List A) (i j : ℕ) (v w : A)
    → (i ≡ j → ⊥)
    → set (set xs i v) j w ≡ set (set xs j w) i v
set-set [] i j v w h = refl
set-set (x ∷ xs) zero zero v w h = absurd (h refl)
set-set (x ∷ xs) zero (suc j) v w h = refl
set-set (x ∷ xs) (suc i) zero v w h = refl
set-set (x ∷ xs) (suc i) (suc j) v w h = ap (λ ys. x ∷ ys) (set-set xs i j v w (λ e. h (ap suc e)))

module _ {A : Type 0} (a : Arena A) (id other : Handle) (apart : id.slot ≡ other.slot → ⊥) where
  pub write-write : (v w : A) → write (write a id v) other w ≡ write (write a other w) id v
  unfolding write
  write-write v w =
      ap (λ slots. record a { slots = slots })
        (set-set a.slots id.slot other.slot (record { generation = id.generation; value = some v })
          (record { generation = other.generation; value = some w }) apart)

  pub resolve-write_apart : (v : A) → resolve (write a id v) other ≡ resolve a other
  unfolding write resolve slot_of
  resolve-write_apart v =
      rw
        (get_elem?-set_ne a.slots id.slot other.slot
          (record { generation = id.generation; value = some v }) apart)
        refl

-- Handles that resolve to two values are of two slots.
pub resolved_apart :
    {A : Type 0} (a : Arena A) (id other : Handle) {v w : A}
    → resolve a id ≡ some v
    → resolve a other ≡ some w
    → (v ≡ w → ⊥)
    → id.slot ≡ other.slot
    → ⊥
resolved_apart a id other live live' differ same =
    differ (cc (located a id live, located a other live', same))
