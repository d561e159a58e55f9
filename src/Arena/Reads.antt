-- ===== src/Arena/Reads.antt =====
-- What the handles of an arena resolve to after one slot is pushed or written.
use seqcache.Prelude.{
  ℕ, suc, ◌≤◌, ◌≡◌, ◌≢◌, refl, ◌∙◌, some, none, List, [], ◌∷◌, ◌++◌, length, get_elem?, set, arith,
  if◌then◌else◌, ◌==◌, Bool-cases, inl, inr, get_elem?-lt, get_elem?-set_self, get_elem?-set_ne,
}
use native.Mathlib.Nat.{mod-eq_of_lt}
use seqcache.Word.{u32_max}
use seqcache.Arena.{Handle, handle_eq, handle_new, Slot, slot_of, resolve}

pub handle_new-exact :
    (i g : ℕ) → i ≤ u32_max → handle_new i g ≡ record { slot = i; generation = g }
unfolding handle_new
handle_new-exact i g h = rw (mod-eq_of_lt {n = i} {m = suc u32_max} (omega (arith, h))) refl

module _ {A : Type 0} where
  pub resolve-set :
      (slots : List (Slot A)) (free free' : List ℕ) (i : ℕ) (s t : Slot A) (j : Handle)
      → get_elem? slots i ≡ some s
      → resolve (record { slots = set slots i t; free = free' }) j ≡ (
          if j.slot == i
          then (if t.generation == j.generation then t.value else none)
          else resolve (record { slots = slots; free = free }) j)
  unfolding resolve slot_of
  resolve-set slots free free' i s t j at =
      let self = get_elem?-set_self slots i t (get_elem?-lt slots i at) in
      elim (Bool-cases (j.slot == i)) [
        | inl same ↦ let here : j.slot ≡ i = ground arith in rw (same, here, self) (ground arith)
        | inr other ↦
            let apart : i ≢ j.slot = λ e. ground arith in
            let kept = get_elem?-set_ne slots i j.slot t apart in rw (other, kept) refl
      ]

  get_elem?-push :
      (xs : List (Slot A)) (v : Slot A) (i : ℕ)
      → get_elem? (xs ++ v ∷ []) i ≡ (if i == length xs then some v else get_elem? xs i)
  get_elem?-push [] v ℕ.zero = refl
  get_elem?-push [] v (ℕ.suc i) = ground arith
  get_elem?-push (x ∷ xs) v ℕ.zero = ground arith
  get_elem?-push (x ∷ xs) v (ℕ.suc i) = ground (arith, get_elem?-push xs v i)

  get_elem?-length : (xs : List (Slot A)) → get_elem? xs (length xs) ≡ none
  get_elem?-length [] = refl
  get_elem?-length (x ∷ xs) = get_elem?-length xs

  pub push-resolve :
      (slots : List (Slot A)) (v : A) (j : Handle)
      → resolve
          (record { slots = slots ++ record { generation = 0; value = some v } ∷ []; free = [] })
          j
        ≡ (if handle_eq j (record { slot = length slots; generation = 0 })
            then some v
            else resolve (record { slots = slots; free = [] }) j)
  unfolding resolve slot_of
  push-resolve slots v j = elim (Bool-cases (j.slot == length slots)) [
    | inl same ↦
        let here : j.slot ≡ length slots = ground arith in
        rw
          (
            get_elem?-push slots (record { generation = 0; value = some v }) j.slot,
            here,
            get_elem?-length slots,
          )
          (ground arith)
    | inr other ↦
        rw (get_elem?-push slots (record { generation = 0; value = some v }) j.slot, other) refl
  ]

  pub resolve-empty :
      (slots : List (Slot A)) (i g : ℕ) (free : List ℕ) (j : Handle)
      → get_elem? slots i ≡ some (record { generation = g; value = none })
      → j.slot ≡ i
      → resolve (record { slots = slots; free = free }) j ≡ none
  unfolding resolve slot_of
  resolve-empty slots i g free j at here = rw (here, at) (ground arith)

  pub reuse-resolve :
      (slots : List (Slot A)) (i g : ℕ) (rest : List ℕ) (v : A) (j : Handle)
      → get_elem? slots i ≡ some (record { generation = g; value = none })
      → resolve
          (record { slots = set slots i (record { generation = g; value = some v }); free = rest })
          j
        ≡ (if handle_eq j (record { slot = i; generation = g })
            then some v
            else resolve (record { slots = slots; free = i ∷ rest }) j)
  reuse-resolve slots i g rest v j at =
      let written =
        resolve-set slots (i ∷ rest) rest i (record { generation = g; value = none })
          (record { generation = g; value = some v }) j at in
      elim (Bool-cases (j.slot == i)) [
        | inl same ↦
            let here : j.slot ≡ i = ground arith in
            written ∙ rw (same, resolve-empty slots i g (i ∷ rest) j at here) (ground arith)
        | inr other ↦ written ∙ rw other refl
      ]
