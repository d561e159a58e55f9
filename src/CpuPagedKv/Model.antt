-- ===== src/CpuPagedKv/Model.antt =====
-- examples/cpu_paged_kv.rs: the page table of a sequence, and the stand-ins for model operations that
-- write the rows of an append and read through the table.
use seqcache.Prelude.{
  ℕ, zero, suc, ◌+◌, ◌*◌, ◌/◌, ◌%◌, ◌-◌, ◌||◌, List, [], ◌∷◌, map, length, ltb, ◌==◌, if◌then◌else◌,
  set, get_elem?,
}
use seqcache.Word.{wrapped}
use seqcache.Error.{ok, err, ok_or, ◌>>=◌}
use seqcache.Cache.Records.{AppendSegment}
use seqcache.CpuPagedKv.Floats.{Floats}
use seqcache.CpuPagedKv.Page.{
  CpuPage, CpuKvPage, page_tokens, kv_width, read_at, slice, write_token,
}
use seqcache.CpuPagedKv.Pool.{CpuKvBackend, CpuResult, invalid_page_table, storage}

pub record CpuPageTable : Type 0 where
  pub pages : List CpuPage
  pub position : ℕ

abbrev pub new_table : CpuPageTable
new_table = record { pages = []; position = 0 }

-- `publish`: the bound on the capacity is only checked in a debug build.
abbrev pub publish : List CpuPage → ℕ → CpuPageTable → CpuPageTable
publish pages position t = record { pages = pages; position = position }

-- `usize::div_ceil`
abbrev pub pages_for : ℕ → ℕ
pages_for tokens = (tokens + (page_tokens - 1)) / page_tokens

-- A row that attention reads, with its score.
pub record ScoredRow (F : Type 0) : Type 0 where
  pub page : CpuPage
  pub page_row : ℕ
  pub score : F

module _ (Fl : Floats) where
  open Fl use {F32, of_nat, add, sub, mul, div, max, sqrt, exp, neg_infinity, sum}

  -- The rows of a segment, from `page_offset` on.
  unfoldable pub write_rows : ℕ → List ℕ → CpuKvPage F32 → CpuResult (CpuKvPage F32)
  write_rows row [] p = ok p
  write_rows row (t ∷ ts) p = write_token Fl row t p >>= λ p'. write_rows (wrapped (row + 1)) ts p'

  unfoldable pub write_model_output :
      CpuPage → AppendSegment → List ℕ → CpuKvBackend F32 → CpuResult (CpuKvBackend F32)
  unfolding write_rows
  write_model_output page segment input_tokens b = do
    tokens ← slice input_tokens segment.input_offset (wrapped (segment.input_offset + segment.rows))
    p ← storage b page
    p' ← write_rows segment.page_offset tokens p
    ok (record b { slots = set b.slots page.slot p' })

  abbrev pub products : List F32 → List F32 → List F32
  products (x ∷ xs) (y ∷ ys) = mul x y ∷ products xs ys
  products _ _ = []

  -- The first loop, over the rows left.
  unfoldable pub score_rows :
      ℕ → ℕ → CpuPageTable → ℕ → List F32 → CpuKvBackend F32 → CpuResult (List (ScoredRow F32))
  score_rows zero token_position table layer_index query b = ok []
  score_rows (suc n) token_position table layer_index query b = do
    page ← read_at table.pages (token_position / page_tokens)
    let page_row = token_position % page_tokens
    p ← storage b page
    layer ← ok_or (get_elem? p.layers layer_index) invalid_page_table
    key ← slice layer.key (page_row * kv_width) (page_row * kv_width + kv_width)
    let score = div (sum (products key query)) (sqrt (of_nat kv_width))
    rows ← score_rows n (token_position + 1) table layer_index query b
    ok (record { page = page; page_row = page_row; score = score } ∷ rows)

  abbrev pub maximum_of : F32 → List (ScoredRow F32) → F32
  maximum_of m [] = m
  maximum_of m (r ∷ rs) = maximum_of (max m r.score) rs

  -- `*output += weight * value`
  abbrev pub add_weighted : F32 → List F32 → List F32 → List F32
  add_weighted w (o ∷ os) (v ∷ vs) = add o (mul w v) ∷ add_weighted w os vs
  add_weighted w os _ = os

  unfoldable pub weigh_rows :
      F32 → F32 → ℕ → List (ScoredRow F32) → List F32 → CpuKvBackend F32 → CpuResult (List F32)
  weigh_rows maximum normalizer layer_index [] output b = ok output
  weigh_rows maximum normalizer layer_index (r ∷ rs) output b = do
    p ← storage b r.page
    layer ← read_at p.layers layer_index
    value ← slice layer.value (r.page_row * kv_width) (r.page_row * kv_width + kv_width)
    let weight = div (exp (sub r.score maximum)) normalizer
    weigh_rows maximum normalizer layer_index rs (add_weighted weight output value) b

  unfoldable pub attend : CpuPageTable → ℕ → ℕ → List F32 → CpuKvBackend F32 → CpuResult (List F32)
  unfolding score_rows weigh_rows
  attend table valid_tokens layer_index query b =
      if valid_tokens == 0
        || ltb valid_tokens table.position
        || ltb (length table.pages) (pages_for valid_tokens)
      then err invalid_page_table
      else do
        rows ← score_rows valid_tokens 0 table layer_index query b
        let maximum = maximum_of neg_infinity rows
        let normalizer = sum (map (λ r. exp (sub r.score maximum)) rows)
        weigh_rows maximum normalizer layer_index rows (of_nat 0 ∷ of_nat 0 ∷ of_nat 0 ∷ []) b

module _ {F : Type 0} where
  unfoldable pub first_key : CpuPage → ℕ → CpuKvBackend F → CpuResult F
  first_key page row b = do
    p ← storage b page
    layer ← read_at p.layers 0
    read_at layer.key (wrapped (row * kv_width))
