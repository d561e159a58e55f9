-- ===== src/Cache/Segments/Cover.antt =====
-- The segments of an append: they cover its rows in order, without a gap and within their pages.
use native.Mathlib.Nat.{div-add-mod', mod-lt}
use seqcache.Prelude.{
  ℕ, zero, suc, ◌+◌, ◌-◌, ◌*◌, ◌%◌, ◌≤◌, ◌<◌, ◌≡◌, refl, List, [], ◌∷◌, ltb, ltb→lt, arith, inl,
  inr, Bool-cases,
}
use seqcache.Word.{min_of}
use seqcache.Cache.Segments.{Span, spans_from, spans}

-- The spans cover the rows from `input` up to `rows`, which go to the positions from `position` on:
-- each begins where the one before it ends, has a row, and stays within its page.
abbrev pub Covers : ℕ → ℕ → ℕ → ℕ → List Span → Type 0
Covers page_tokens input position rows [] = input ≡ rows
Covers page_tokens input position rows (s ∷ ss) =
    (s.input_offset ≡ input)
    × (s.logical_page * page_tokens + s.page_offset ≡ position)
    × (0 < s.rows)
    × (s.page_offset + s.rows ≤ page_tokens)
    × Covers page_tokens (input + s.rows) (position + s.rows) rows ss

pub min_of_bounds :
    (a b : ℕ) → (min_of a b ≤ a) × (min_of a b ≤ b) × (0 < a → 0 < b → 0 < min_of a b)
min_of_bounds a b = ground arith

spans_from-Covers :
    (fuel n rows input position : ℕ)
    → 0 < n
    → input ≤ rows
    → rows ≤ input + fuel
    → Covers n input position rows (spans_from fuel n rows input position)
unfolding spans_from
spans_from-Covers zero n rows input position pos le enough = omega arith
spans_from-Covers (suc fuel) n rows input position pos le enough =
    elim (Bool-cases (ltb input rows)) [
      | inl more ↦
          let k : ℕ = min_of (rows - input) (n - position % n) in
          let lt = ltb→lt input rows more in
          let below = mod-lt position pos in
          let (fits, room, some_row) = min_of_bounds (rows - input) (n - position % n) in
          let one = some_row (omega arith) (omega arith) in
          rw more (
            refl,
            div-add-mod' position n,
            one,
            omega arith,
            spans_from-Covers fuel n rows (input + k) (position + k) pos (omega arith)
                (omega arith),
          )
      | inr done ↦ rw done (ground arith)
    ]

-- With at least one token per page, the segments of an append of `rows` rows at `position` are in
-- order, leave no row out and repeat none, have a row each, and stay within their pages. So the
-- loop ends by its test.
pub spans-Covers :
    (page_tokens rows position : ℕ)
    → 0 < page_tokens
    → Covers page_tokens 0 position rows (spans page_tokens rows position)
spans-Covers n rows position pos =
    spans_from-Covers rows n rows 0 position pos (omega arith) (omega arith)
