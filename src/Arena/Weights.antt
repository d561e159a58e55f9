-- ===== src/Arena/Weights.antt =====
-- Totals over the slots of an arena, and what an insertion and a removal do to them.
use Prim.Native.String.{String}
use seqcache.Prelude.{
  refl, ℕ, suc, ◌+◌, ◌≡◌, ap, some, none, List, [], ◌∷◌, ◌++◌, length, get_elem?, set, sum_by,
  sum_by-append, sum_by-set, arith, Bool-cases, inl, inr, ltb, length-append, length-set,
}
use seqcache.Word.{u32_max}
use seqcache.Error.{ok}
use seqcache.Arena.{
  Handle, Slot, Arena, slot_of, resolve, prepare_slot, push_slot, reuse_slot, insert, vacate, write,
}
use seqcache.Arena.Sound.{IsFree, IsSound}

module _ {A : Type 0} where
  -- The weight of what a slot holds.
  abbrev pub weight_in : (A → ℕ) → Slot A → ℕ
  weight_in f s = elim s.value [ none ↦ 0 | some v ↦ f v ]

  abbrev pub weigh : (A → ℕ) → Arena A → ℕ
  weigh f a = sum_by (weight_in f) a.slots

  pushed_weight :
      {E : Type 0} (kind : String) (f : A → ℕ) (slots : List (Slot A)) (v : A) {id : Handle}
      {a' : Arena A}
      → insert {E = E} kind (record { slots = slots; free = [] }) v ≡ (ok id, a')
      → (slots ++ record { generation = 0; value = some v } ∷ [] ≡ a'.slots) × ([] ≡ a'.free)
  unfolding insert prepare_slot push_slot
  pushed_weight kind f slots v h = elim (Bool-cases (ltb u32_max (length slots))) [
    | inl full ↦ absurd (cc (rw full at h))
    | inr room ↦ (ap (λ x. x.1.slots) (rw room at h), ap (λ x. x.1.free) (rw room at h))
  ]

  popped_slots :
      {E : Type 0} (kind : String) (slots : List (Slot A)) (i g : ℕ) (rest : List ℕ) (v : A)
      {id : Handle} {a' : Arena A}
      → get_elem? slots i ≡ some (record { generation = g; value = none })
      → insert {E = E} kind (record { slots = slots; free = i ∷ rest }) v ≡ (ok id, a')
      → (set slots i (record { generation = g; value = some v }) ≡ a'.slots) × (rest ≡ a'.free)
  unfolding insert reuse_slot
  popped_slots kind slots i g rest v at h =
      (ap (λ x. x.1.slots) (rw at at h), ap (λ x. x.1.free) (rw at at h))

  -- An insertion into a sound arena adds the weight of its value; and either the arena grows by a slot,
  -- or its free slots go down by one.
  inserted_weight :
      {E : Type 0} (kind : String) (f : A → ℕ) (slots : List (Slot A)) (free : List ℕ) (v : A)
      {id : Handle} {a' : Arena A}
      → IsFree slots free
      → insert {E = E} kind (record { slots = slots; free = free }) v ≡ (ok id, a')
      → (weigh f a' ≡ sum_by (weight_in f) slots + f v)
        × (length a'.slots + length free ≡ suc (length slots + length a'.free))
  inserted_weight kind f slots [] v {a' = a'} sound h =
      let (s, fr) = pushed_weight kind f slots v h in
      let total = ap (sum_by (weight_in f)) s in
      let sized = ap length s in
      let left = ap length fr in
      (
        omega (
          arith,
          total,
          sum_by-append (weight_in f) slots (record { generation = 0; value = some v } ∷ []),
        ),
        omega (
          arith,
          sized,
          left,
          length-append slots (record { generation = 0; value = some v } ∷ []),
        ),
      )
  inserted_weight kind f slots (i ∷ rest) v {a' = a'} ((g, at), others, free) h =
      let (s, fr) = popped_slots kind slots i g rest v at h in
      let total = ap (sum_by (weight_in f)) s in
      let sized = ap length s in
      let left = ap length fr in
      (
        omega (
          arith,
          total,
          sum_by-set (weight_in f) slots i (record { generation = g; value = some v }) at,
        ),
        omega (arith, sized, left, length-set slots i (record { generation = g; value = some v })),
      )

  pub weigh-insert :
      {E : Type 0} (kind : String) (f : A → ℕ) (a : Arena A) (v : A) {id : Handle} {a' : Arena A}
      → IsSound a
      → insert {E = E} kind a v ≡ (ok id, a')
      → (weigh f a' ≡ weigh f a + f v)
        × (length a'.slots + length a.free ≡ suc (length a.slots + length a'.free))
  weigh-insert kind f a v sound h = inserted_weight kind f a.slots a.free v sound.unused h

  pub weigh-vacate :
      (f : A → ℕ) (a : Arena A) (id : Handle) (next : ℕ) {v : A}
      → resolve a id ≡ some v
      → weigh f (vacate a id next) + f v ≡ weigh f a
  unfolding vacate resolve slot_of
  weigh-vacate f a id next {v} h =
      let at : get_elem? a.slots id.slot
          ≡ some (record { generation = id.generation; value = some v }) =
        ground arith in
      let moved =
        sum_by-set (weight_in f) a.slots id.slot (record { generation = next; value = none }) at in
      omega (arith, moved)

  -- A write through a handle that resolves moves the total by the difference of the two values.
  pub weigh-write :
      (f : A → ℕ) (a : Arena A) (id : Handle) (w : A) {v : A}
      → resolve a id ≡ some v
      → weigh f (write a id w) + f v ≡ weigh f a + f w
  unfolding write resolve slot_of
  weigh-write f a id w {v} h =
      let at : get_elem? a.slots id.slot
          ≡ some (record { generation = id.generation; value = some v }) =
        ground arith in
      sum_by-set (weight_in f) a.slots id.slot
        (record { generation = id.generation; value = some w }) at

  pub write-sizes :
      (a : Arena A) (id : Handle) (w : A)
      → (length (write a id w).slots ≡ length a.slots) × ((write a id w).free ≡ a.free)
  unfolding write
  write-sizes a id w =
      (length-set a.slots id.slot (record { generation = id.generation; value = some w }), refl)
