-- ===== src/Arena/Sound.antt =====
-- Arenas whose free slots are empty slots, each listed once, and whose size fits a handle.
use seqcache.Prelude.{
  ℕ, suc, ◌≤◌, ◌≡◌, ◌≢◌, ◌∙◌, some, none, List, [], ◌∷◌, ◌++◌, length, get_elem?, set, All,
  get_elem?-lt, get_elem?-set_ne, get_elem?-append_left,
}
use seqcache.Word.{u32_max}
use seqcache.Arena.{Slot, Arena}

abbrev pub IsFree : {A : Type 0} → List (Slot A) → List ℕ → Type 0
IsFree slots [] = Unit {0}
IsFree slots (i ∷ is) =
    ((g : ℕ) × (get_elem? slots i ≡ some (record { generation = g; value = none })))
    × All (λ j. i ≢ j) is
    × IsFree slots is

pub record IsSound {A : Type 0} (a : Arena A) : Type 0 where
  pub unused : IsFree a.slots a.free
  pub sized : length a.slots ≤ suc u32_max

module _ {A : Type 0} where
  -- A write to another slot keeps the free ones free.
  pub set-IsFree :
      (slots : List (Slot A)) (i : ℕ) (s : Slot A) (free : List ℕ)
      → All (λ j. i ≢ j) free
      → IsFree slots free
      → IsFree (set slots i s) free
  set-IsFree slots i s [] apart h = tt
  set-IsFree slots i s (j ∷ js) (ne, apart) ((g, at), others, rest) =
      ((g, get_elem?-set_ne slots i j s ne ∙ at), others, set-IsFree slots i s js apart rest)

  pub append-IsFree :
      (slots : List (Slot A)) (s : Slot A) (free : List ℕ)
      → IsFree slots free
      → IsFree (slots ++ s ∷ []) free
  append-IsFree slots s [] h = tt
  append-IsFree slots s (j ∷ js) ((g, at), others, rest) = (
    (g, get_elem?-append_left slots (s ∷ []) j (get_elem?-lt slots j at) ∙ at),
    others,
    append-IsFree slots s js rest,
  )

  -- A slot that holds a value is none of the free ones.
  pub live-apart :
      (slots : List (Slot A)) (i : ℕ) (free : List ℕ) {g : ℕ} {v : A}
      → get_elem? slots i ≡ some (record { generation = g; value = some v })
      → IsFree slots free
      → All (λ j. i ≢ j) free
  live-apart slots i [] at h = tt
  live-apart slots i (j ∷ js) at ((g, empty), others, rest) =
      ((λ same. cc (at, empty, same)), live-apart slots i js at rest)
