-- ===== src/CpuPagedKv/Dead.antt =====
-- examples/cpu_paged_kv.rs: pools whose free slots are exactly their dead ones, and whose pages have
-- their full matrices.
use seqcache.Prelude.{
  ℕ, zero, suc, ◌+◌, ◌*◌, ◌≤◌, ◌≡◌, ◌≢◌, refl, ◌∙◌, Bool, true, false, some, List, [], ◌∷◌, ◌++◌,
  length, get_elem?, set, drop, All, count_by, get_elem?-lt, get_elem?-set_ne,
  get_elem?-append_left, arith,
}
use seqcache.Error.{ok}
use seqcache.CpuPagedKv.Floats.{Floats}
use seqcache.CpuPagedKv.Page.{
  LayerKv, CpuKvPage, page_tokens, layer_count, kv_width, replicate, new_page, clear_layer,
  clear_layers, clear_rows,
}
use seqcache.CpuPagedKv.Pool.{CpuKvBackend}

abbrev pub IsFull : {F : Type 0} → LayerKv F → Type 0
IsFull l = (length l.key ≡ page_tokens * kv_width) × (length l.value ≡ page_tokens * kv_width)

abbrev pub IsShaped : {F : Type 0} → CpuKvPage F → Type 0
IsShaped p = (length p.layers ≡ layer_count) × All IsFull p.layers

-- Free slots are dead, and each is listed once.
abbrev pub AreDead : List Bool → List ℕ → Type 0
AreDead live [] = Unit {0}
AreDead live (i ∷ is) = (get_elem? live i ≡ some false) × All (λ j. i ≢ j) is × AreDead live is

pub record IsPooled {F : Type 0} (b : CpuKvBackend F) : Type 0 where
  pub sized : length b.live ≡ length b.slots
  pub bounded : length b.slots ≤ b.max_pages
  pub shaped : All IsShaped b.slots
  pub dead : AreDead b.live b.free_slots
  pub tiled : length b.live ≡ length b.free_slots + count_by (λ l. l) b.live

pub AreDead-set :
    (live : List Bool) (i : ℕ) (l : Bool) (free : List ℕ)
    → All (λ j. i ≢ j) free
    → AreDead live free
    → AreDead (set live i l) free
AreDead-set live i l [] apart h = tt
AreDead-set live i l (j ∷ js) (ne, apart) (at, others, rest) =
    (get_elem?-set_ne live i j l ne ∙ at, others, AreDead-set live i l js apart rest)

pub AreDead-push :
    (live : List Bool) (free : List ℕ) → AreDead live free → AreDead (live ++ true ∷ []) free
AreDead-push live [] h = tt
AreDead-push live (j ∷ js) (at, others, rest) = (
  get_elem?-append_left live (true ∷ []) j (get_elem?-lt live j at) ∙ at,
  others,
  AreDead-push live js rest,
)

pub live-apart :
    (live : List Bool) (i : ℕ) (free : List ℕ)
    → get_elem? live i ≡ some true
    → AreDead live free
    → All (λ j. i ≢ j) free
live-apart live i [] at h = tt
live-apart live i (j ∷ js) at (dead, others, rest) =
    ((λ same. cc (at, dead, same)), live-apart live i js at rest)

drop_all : {A : Type 0} (n : ℕ) (xs : List A) → length xs ≡ n → drop n xs ≡ []
drop_all zero [] h = refl
drop_all zero (x ∷ xs) h = absurd (omega arith)
drop_all (suc n) [] h = refl
drop_all (suc n) (x ∷ xs) h = drop_all n xs (omega arith)

module _ (Fl : Floats) where
  open Fl use {F32, of_nat}

  abbrev zeros : LayerKv F32
  zeros = record {
    key = replicate (page_tokens * kv_width) (of_nat 0);
    value = replicate (page_tokens * kv_width) (of_nat 0);
  }

  clear_layer-zeros :
      (E : Type 0) (l : LayerKv F32)
      → IsFull l
      → clear_layer Fl {E = E} 0 (page_tokens * kv_width) l ≡ ok zeros
  unfolding clear_layer
  clear_layer-zeros E l (key, value) =
      rw (key, value, drop_all 12 l.key key, drop_all 12 l.value value) refl

  clear_layers-zeros :
      (E : Type 0) (ls : List (LayerKv F32))
      → All IsFull ls
      → clear_layers Fl {E = E} 0 (page_tokens * kv_width) ls ≡ ok (replicate (length ls) zeros)
  unfolding clear_layers
  clear_layers-zeros E [] h = refl
  clear_layers-zeros E (l ∷ ls) (here, there) =
      rw (clear_layer-zeros E l here, clear_layers-zeros E ls there) refl

  pub clear_rows-new_page :
      (E : Type 0) (p : CpuKvPage F32)
      → IsShaped p
      → clear_rows Fl {E = E} 0 page_tokens p ≡ ok (new_page Fl)
  unfolding clear_rows new_page
  clear_rows-new_page E p (two, full) = rw (clear_layers-zeros E p.layers full, two) refl

  pub new_page-IsShaped : IsShaped (new_page Fl)
  unfolding new_page
  new_page-IsShaped = (refl, ((refl, refl), ((refl, refl), tt)))
