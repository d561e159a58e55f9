-- ===== src/CpuPagedKv/Page.antt =====
-- examples/cpu_paged_kv.rs: `CpuKvPage`, one page with the matrices of every layer. An index or a
-- range out of bounds panics.
use seqcache.Prelude.{
  ℕ, zero, suc, ◌+◌, ◌*◌, ◌-◌, ◌&&◌, none, some, List, [], ◌∷◌, ◌++◌, length, get_elem?, set, take,
  drop, ltb, leb, if◌then◌else◌,
}
use seqcache.Word.{wrapped}
use seqcache.Error.{Result, ok, panic, ◌>>=◌}
use seqcache.CpuPagedKv.Floats.{Floats}

abbrev pub page_tokens : ℕ
page_tokens = 4

abbrev pub layer_count : ℕ
layer_count = 2

abbrev pub kv_width : ℕ
kv_width = 3

abbrev pub max_physical_pages : ℕ
max_physical_pages = 16

abbrev pub replicate : {A : Type 0} → ℕ → A → List A
replicate zero a = []
replicate (suc n) a = a ∷ replicate n a

pub record CpuPage : Type 0 where
  pub slot : ℕ

pub record LayerKv (F : Type 0) : Type 0 where
  pub key : List F
  pub value : List F

pub record CpuKvPage (F : Type 0) : Type 0 where
  pub layers : List (LayerKv F)

module _ {E A : Type 0} where
  -- `xs[i] = a`
  abbrev pub write_at : List A → ℕ → A → Result E (List A)
  write_at xs i a = if ltb i (length xs) then ok (set xs i a) else panic

  -- `xs[i]`
  abbrev pub read_at : List A → ℕ → Result E A
  read_at xs i = elim (get_elem? xs i) [ none ↦ panic | some a ↦ ok a ]

  -- `&xs[from..to]`
  abbrev pub slice : List A → ℕ → ℕ → Result E (List A)
  slice xs from to =
      if leb from to && leb to (length xs) then ok (take (to - from) (drop from xs)) else panic

  -- `xs[from..to].copy_from_slice(ys)`, where `ys` is as long as the range.
  abbrev pub splice : List A → ℕ → ℕ → List A → Result E (List A)
  splice xs from to ys =
      if leb from to && leb to (length xs) then ok (take from xs ++ ys ++ drop to xs) else panic

module _ (Fl : Floats) where
  open Fl use {F32, of_nat, add, mul, div, neg}

  unfoldable pub new_page : CpuKvPage F32
  new_page = record {
    layers = replicate layer_count (record {
      key = replicate (page_tokens * kv_width) (of_nat 0);
      value = replicate (page_tokens * kv_width) (of_nat 0);
    });
  }

  -- `token as f32 + layer_index as f32 * 100.0 + column as f32 / 10.0`
  abbrev pub projected : ℕ → ℕ → ℕ → F32
  projected token layer_index column =
      add (add (of_nat token) (mul (of_nat layer_index) (of_nat 100)))
        (div (of_nat column) (of_nat 10))

  -- The loop over the columns, with the columns left.
  unfoldable pub write_columns :
      {E : Type 0} → ℕ → ℕ → ℕ → ℕ → ℕ → LayerKv F32 → Result E (LayerKv F32)
  write_columns zero column start token layer_index l = ok l
  write_columns (suc n) column start token layer_index l = do
    let key = projected token layer_index column
    keys ← write_at l.key (wrapped (start + column)) key
    values ← write_at l.value (wrapped (start + column)) (neg key)
    write_columns n (column + 1) start token layer_index (record { key = keys; value = values })

  unfoldable pub write_layers :
      {E : Type 0} → ℕ → ℕ → ℕ → List (LayerKv F32) → Result E (List (LayerKv F32))
  unfolding write_columns
  write_layers layer_index row token [] = ok []
  write_layers layer_index row token (l ∷ ls) = do
    l' ← write_columns kv_width 0 (wrapped (row * kv_width)) token layer_index l
    ls' ← write_layers (layer_index + 1) row token ls
    ok (l' ∷ ls')

  unfoldable pub write_token : {E : Type 0} → ℕ → ℕ → CpuKvPage F32 → Result E (CpuKvPage F32)
  unfolding write_layers
  write_token row token p = do
    layers ← write_layers 0 row token p.layers
    ok (record { layers = layers })

  unfoldable pub clear_layer : {E : Type 0} → ℕ → ℕ → LayerKv F32 → Result E (LayerKv F32)
  clear_layer from to l = do
    keys ← splice l.key from to (replicate (to - from) (of_nat 0))
    values ← splice l.value from to (replicate (to - from) (of_nat 0))
    ok (record { key = keys; value = values })

  unfoldable pub clear_layers :
      {E : Type 0} → ℕ → ℕ → List (LayerKv F32) → Result E (List (LayerKv F32))
  unfolding clear_layer
  clear_layers from to [] = ok []
  clear_layers from to (l ∷ ls) = do
    l' ← clear_layer from to l
    ls' ← clear_layers from to ls
    ok (l' ∷ ls')

  unfoldable pub clear_rows : {E : Type 0} → ℕ → ℕ → CpuKvPage F32 → Result E (CpuKvPage F32)
  unfolding clear_layers
  clear_rows start_row end_row p = do
    layers ← clear_layers (wrapped (start_row * kv_width)) (wrapped (end_row * kv_width)) p.layers
    ok (record { layers = layers })

module _ {F : Type 0} where
  unfoldable pub copy_layer : {E : Type 0} → ℕ → ℕ → LayerKv F → LayerKv F → Result E (LayerKv F)
  copy_layer from to source l = do
    key ← slice source.key from to
    keys ← splice l.key from to key
    value ← slice source.value from to
    values ← splice l.value from to value
    ok (record { key = keys; value = values })

  -- `iter_mut().zip(..)`: the layers past the shorter list stay.
  unfoldable pub copy_layers :
      {E : Type 0} → ℕ → ℕ → List (LayerKv F) → List (LayerKv F) → Result E (List (LayerKv F))
  unfolding copy_layer
  copy_layers from to (s ∷ ss) (l ∷ ls) = do
    l' ← copy_layer from to s l
    ls' ← copy_layers from to ss ls
    ok (l' ∷ ls')
  copy_layers from to _ ls = ok ls

  unfoldable pub copy_rows_from :
      {E : Type 0} → CpuKvPage F → ℕ → ℕ → CpuKvPage F → Result E (CpuKvPage F)
  unfolding copy_layers
  copy_rows_from source start_row end_row p = do
    layers ←
        copy_layers (wrapped (start_row * kv_width)) (wrapped (end_row * kv_width)) source.layers
          p.layers
    ok (record { layers = layers })
