-- ===== src/Arena/Resolved.antt =====
-- What the handles of an arena resolve to after an insertion and after a removal.
use Prim.Native.String.{String}
use seqcache.Prelude.{
  ℕ, ◌+◌, ◌≤◌, ◌≡◌, refl, ◌∙◌, subst, some, none, List, [], ◌∷◌, length, get_elem?, set, arith,
  if◌then◌else◌, ◌==◌, Bool-cases, inl, inr, false, ltb, ltb→ge, length-set, length-append,
  get_elem?-lt, get_elem?-set_self,
}
use seqcache.Word.{u32_max}
use seqcache.Error.{ok}
use seqcache.Arena.{
  Handle, handle_eq, handle_new, Slot, Arena, slot_of, resolve, prepare_slot, push_slot, reuse_slot,
  insert, vacate,
}
use seqcache.Arena.Reads.{handle_new-exact, resolve-set, push-resolve, reuse-resolve}
use seqcache.Arena.Sound.{IsSound, set-IsFree, live-apart}

module _ {A : Type 0} where
  insert-pushed :
      (slots : List (Slot A)) (v : A)
      → IsSound (record { slots = slots; free = [] })
      → length slots ≤ u32_max
      → IsSound (push_slot (record { slots = slots; free = [] }) v).1
        × ((j : Handle)
            → resolve (push_slot (record { slots = slots; free = [] }) v).1 j ≡ (
                if handle_eq j (push_slot (record { slots = slots; free = [] }) v).0
                then some v
                else resolve (record { slots = slots; free = [] }) j))
  unfolding push_slot
  insert-pushed slots v sound room = (
    record {
      unused = tt;
      sized =
          omega (arith, length-append slots (record { generation = 0; value = some v } ∷ []), room);
    },
    λ j. rw (handle_new-exact (length slots) 0 room) (push-resolve slots v j),
  )

  -- What an insertion of a value promises of its handle and its arena.
  abbrev pub Inserts : Arena A → A → Handle → Arena A → Type 0
  Inserts a v id a' =
      IsSound a' × ((j : Handle) → resolve a' j ≡ (if handle_eq j id then some v else resolve a j))

  pushed :
      {E : Type 0} (kind : String) (slots : List (Slot A)) (v : A) {id : Handle} {a' : Arena A}
      → IsSound (record { slots = slots; free = [] })
      → insert {E = E} kind (record { slots = slots; free = [] }) v ≡ (ok id, a')
      → Inserts (record { slots = slots; free = [] }) v id a'
  unfolding insert prepare_slot
  pushed {E} kind slots v {id} {a'} sound h = elim (Bool-cases (ltb u32_max (length slots))) [
    | inl full ↦ ground arith
    | inr room ↦
        let le = ltb→ge u32_max (length slots) room in
        let both : (push_slot (record { slots = slots; free = [] }) v).0 ≡ id = cc (rw room at h) in
        let after : (push_slot (record { slots = slots; free = [] }) v).1 ≡ a' =
          cc (rw room at h) in
        subst (λ i. Inserts (record { slots = slots; free = [] }) v i a') both
          (subst
            (Inserts (record { slots = slots; free = [] }) v
              (push_slot (record { slots = slots; free = [] }) v).0)
            after (insert-pushed slots v sound le))
  ]

  reused :
      (slots : List (Slot A)) (i : ℕ) (rest : List ℕ) (v : A)
      → IsSound (record { slots = slots; free = i ∷ rest })
      → (g : ℕ) × (get_elem? slots i ≡ some (record { generation = g; value = none }))
        × Inserts
            (record { slots = slots; free = i ∷ rest })
            v
            (record { slot = i; generation = g })
            (record {
              slots = set slots i (record { generation = g; value = some v });
              free = rest;
            })
        × (handle_new i g ≡ record { slot = i; generation = g })
  reused slots i rest v sound =
      let ((g, at), others, free) = sound.unused in
      let within = get_elem?-lt slots i at in
      (
        g,
        at,
        (
          record {
            unused =
                set-IsFree slots i (record { generation = g; value = some v }) rest others free;
            sized = omega (
              arith,
              sound.sized,
              length-set slots i (record { generation = g; value = some v }),
            );
          },
          λ j. reuse-resolve slots i g rest v j at,
        ),
        handle_new-exact i g (omega (arith, within, sound.sized)),
      )

  popped :
      {E : Type 0} (kind : String) (slots : List (Slot A)) (i : ℕ) (rest : List ℕ) (v : A)
      {id : Handle} {a' : Arena A}
      → IsSound (record { slots = slots; free = i ∷ rest })
      → insert {E = E} kind (record { slots = slots; free = i ∷ rest }) v ≡ (ok id, a')
      → Inserts (record { slots = slots; free = i ∷ rest }) v id a'
  unfolding insert reuse_slot
  popped kind slots i rest v {id} {a'} sound h =
      let (g, at, inserted, exact) = reused slots i rest v sound in
      let slot_id : record { slot = i; generation = g } ≡ id = cc (rw (at, exact) at h) in
      let after : record {
        slots = set slots i (record { generation = g; value = some v });
        free = rest;
      }
          ≡ a' =
        cc (rw (at, exact) at h) in
      subst (λ x. Inserts (record { slots = slots; free = i ∷ rest }) v x a') slot_id
        (subst
          (Inserts (record { slots = slots; free = i ∷ rest }) v
            (record { slot = i; generation = g }))
          after inserted)

  inserted :
      {E : Type 0} (kind : String) (slots : List (Slot A)) (free : List ℕ) (v : A) {id : Handle}
      {a' : Arena A}
      → IsSound (record { slots = slots; free = free })
      → insert {E = E} kind (record { slots = slots; free = free }) v ≡ (ok id, a')
      → Inserts (record { slots = slots; free = free }) v id a'
  inserted kind slots [] v sound h = pushed kind slots v sound h
  inserted kind slots (i ∷ rest) v sound h = popped kind slots i rest v sound h

  -- On a sound arena, whatever slot an insertion takes, the arena stays sound, the new handle resolves
  -- to the value, and every other handle to what it resolved to before.
  pub insert-Inserts :
      {E : Type 0} (kind : String) (a : Arena A) (v : A) {id : Handle} {a' : Arena A}
      → IsSound a
      → insert {E = E} kind a v ≡ (ok id, a')
      → Inserts a v id a'
  insert-Inserts kind a v sound h = inserted kind a.slots a.free v sound h

  slot_of_live :
      (a : Arena A) (id : Handle) {v : A}
      → resolve a id ≡ some v
      → get_elem? a.slots id.slot ≡ some (record { generation = id.generation; value = some v })
  unfolding resolve slot_of
  slot_of_live a id h = ground arith

  resolve-other :
      (a : Arena A) (id j : Handle) {v : A}
      → resolve a id ≡ some v
      → j.slot ≡ id.slot
      → (j.generation == id.generation) ≡ false
      → resolve a j ≡ none
  unfolding resolve slot_of
  resolve-other a id j h same other = let at = slot_of_live a id h in rw (same, at) (ground arith)

  vacated :
      (a : Arena A) (id j : Handle) {v : A}
      → resolve a id ≡ some v
      → (if j.slot == id.slot
          then (if (id.generation + 1) == j.generation then none else none)
          else resolve a j)
        ≡ (if handle_eq j id then none else resolve a j)
  vacated a id j h = elim (Bool-cases (j.slot == id.slot)) [
    | inl same ↦
        let here : j.slot ≡ id.slot = ground arith in
        elim (Bool-cases (j.generation == id.generation)) [
          | inl old ↦ rw (same, old) (ground arith)
          | inr other ↦ rw (same, other, resolve-other a id j h here other) (ground arith)
        ]
    | inr other ↦ rw other refl
  ]

  -- On a sound arena, once the slot of a live handle is emptied under its next generation, the arena
  -- stays sound, the handle resolves to nothing, and every other handle to what it did before.
  pub vacate-resolve :
      (a : Arena A) (id : Handle) {v : A}
      → IsSound a
      → resolve a id ≡ some v
      → IsSound (vacate a id (id.generation + 1))
        × ((j : Handle)
            → resolve (vacate a id (id.generation + 1)) j
              ≡ (if handle_eq j id then none else resolve a j))
  unfolding vacate
  vacate-resolve a id {v} sound h =
      let live : Slot A = record { generation = id.generation; value = some v } in
      let empty : Slot A = record { generation = id.generation + 1; value = none } in
      let at = slot_of_live a id h in
      let others = live-apart a.slots id.slot a.free at sound.unused in
      let self = get_elem?-set_self a.slots id.slot empty (get_elem?-lt a.slots id.slot at) in
      (
        record {
          unused = (
            (id.generation + 1, self),
            others,
            set-IsFree a.slots id.slot empty a.free others sound.unused,
          );
          sized = omega (arith, sound.sized, length-set a.slots id.slot empty);
        },
        λ j.
            resolve-set a.slots a.free (id.slot ∷ a.free) id.slot live empty j at
            ∙ vacated a id j h,
      )
