-- ===== src/Arena.antt =====
-- The two slot arenas of src/manager.rs: `pages` with `free_page_slots`, and `sequences` with
-- `free_sequence_slots`. The head of `free` is the end of the source's vector of free slots.
pub mod Sound
pub mod Reads
pub mod Resolved
pub mod Weights
pub mod Written
use Prim.Native.String.{String}
use seqcache.Prelude.{
  ℕ, suc, ◌%◌, Bool, ◌&&◌, Option, none, some, List, [], ◌∷◌, ◌++◌, length, get_elem?, set, ltb,
  ◌==◌, if◌then◌else◌,
}
use seqcache.Word.{u32_max}
use seqcache.Error.{CacheError, Result, ok, err, panic, id_exhausted, and_then}

-- `PageId` and `SequenceId`, the two instances of `generational_id!`.
pub record Handle : Type 0 where
  pub slot : ℕ
  pub generation : ℕ

-- `new`: the slot is cast to 32 bits.
unfoldable pub handle_new : ℕ → ℕ → Handle
handle_new slot generation = record { slot = slot % suc u32_max; generation = generation }

abbrev pub handle_eq : Handle → Handle → Bool
handle_eq a b = a.slot == b.slot && a.generation == b.generation

pub record Slot (A : Type 0) : Type 0 where
  pub generation : ℕ
  pub value : Option A

pub record Arena (A : Type 0) : Type 0 where
  pub slots : List (Slot A)
  pub free : List ℕ

module _ {A : Type 0} where
  abbrev pub if_generation : ℕ → Slot A → Option (Slot A)
  if_generation g s = if s.generation == g then some s else none

  abbrev pub get_slot : Arena A → ℕ → Option (Slot A)
  get_slot a slot = get_elem? a.slots slot

  -- The slot of a handle, if it carries the handle's generation.
  unfoldable pub slot_of : Arena A → Handle → Option (Slot A)
  slot_of a id = and_then (get_elem? a.slots id.slot) (if_generation id.generation)

  unfoldable pub resolve : Arena A → Handle → Option A
  unfolding slot_of
  resolve a id = and_then (slot_of a id) (λ s. s.value)

  -- What an assignment through the `&mut` of a resolved handle does.
  unfoldable pub write : Arena A → Handle → A → Arena A
  write a id v = record a {
    slots = set a.slots id.slot (record { generation = id.generation; value = some v });
  }

  unfoldable pub push_slot : Arena A → A → Handle × Arena A
  push_slot a v = (
    handle_new (length a.slots) 0,
    record a { slots = a.slots ++ record { generation = 0; value = some v } ∷ [] },
  )

  unfoldable pub reuse_slot :
      {E : Type 0} → Arena A → ℕ → List ℕ → Option (Slot A) → A → Result E Handle × Arena A
  reuse_slot a slot rest none v = (panic, record a { free = rest })
  reuse_slot a slot rest (some s) v = (
    ok (handle_new slot s.generation),
    record {
      slots = set a.slots slot (record { generation = s.generation; value = some v });
      free = rest;
    },
  )

  -- The slot is emptied under its next generation and goes to the free slots.
  unfoldable pub vacate : Arena A → Handle → ℕ → Arena A
  vacate a id next_generation = record {
    slots = set a.slots id.slot (record { generation = next_generation; value = none });
    free = id.slot ∷ a.free;
  }

module _ {E A : Type 0} where
  unfoldable pub prepare_slot : String → Arena A → Result (CacheError E) (Unit {0})
  prepare_slot kind a = elim a.free [
    | [] ↦ if ltb u32_max (length a.slots) then err (id_exhausted kind) else ok tt
    | slot ∷ rest ↦ ok tt
  ]

  abbrev pub push_checked :
      Arena A → A → Result (CacheError E) (Unit {0}) → Result (CacheError E) Handle × Arena A
  push_checked a v (ok _) = let (id, a') = push_slot a v in (ok id, a')
  push_checked a v (err e) = (err e, a)
  push_checked a v panic = (panic, a)

  -- The slot of `insert_page` and of `insert_sequence`.
  unfoldable pub insert : String → Arena A → A → Result (CacheError E) Handle × Arena A
  unfolding push_slot reuse_slot prepare_slot
  insert kind a v = elim a.free [
    | [] ↦ push_checked a v (prepare_slot kind a)
    | slot ∷ rest ↦ reuse_slot a slot rest (get_elem? a.slots slot) v
  ]

module _ {E A : Type 0} where
  -- The slot of `insert_page_prepared`, whose caller has called `prepare_page_slots`.
  unfoldable pub insert_prepared : Arena A → A → Result (CacheError E) Handle × Arena A
  unfolding push_slot reuse_slot
  insert_prepared a v = elim a.free [
    | [] ↦ let (id, a') = push_slot a v in (ok id, a')
    | slot ∷ rest ↦ reuse_slot a slot rest (get_elem? a.slots slot) v
  ]
