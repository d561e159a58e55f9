-- ===== src/Cache/Append/Sizes.antt =====
-- The numbers of pages that an append needs, rounded up.
use native.Mathlib.Nat.{div-mul-le_self, le-div_iff_mul-le, add-div_right, div-add-mod'}
use seqcache.Prelude.{ℕ, ◌+◌, ◌-◌, ◌/◌, ◌%◌, ◌≤◌, ◌<◌, ◌≡◌, ◌⊎◌, inl, inr, List, length, arith}
use seqcache.Word.{usize_max}
use seqcache.Error.{ok}
use seqcache.Arena.{Handle}
use seqcache.Config.{div_ceil}
use seqcache.Config.Sizes.{below_multiple}

-- The pages for a number of tokens, rounded up.
abbrev pub pages_of : ℕ → ℕ → ℕ
pages_of page_tokens tokens = (tokens + (page_tokens - 1)) / page_tokens

pub div_mono : (a b d : ℕ) → 0 < d → a ≤ b → a / d ≤ b / d
div_mono a b d pos h = let below = div-mul-le_self a d in (le-div_iff_mul-le pos).1 (omega arith)

-- From a boundary, one more row needs one more page.
pages_of-boundary :
    (d tokens rows : ℕ)
    → 0 < d
    → 0 < rows
    → tokens % d ≡ 0
    → pages_of d tokens + 1 ≤ pages_of d (tokens + rows)
pages_of-boundary d tokens rows pos some_rows aligned =
    let whole = div-add-mod' tokens d in
    let up = add-div_right tokens pos in
    let below = div-mul-le_self (tokens + (d - 1)) d in
    let low = below_multiple (pages_of d tokens) (tokens / d) d (omega arith) in
    let next = div_mono (tokens + d) (tokens + rows + (d - 1)) d pos (omega arith) in omega arith

-- The pages of an accepted sequence are no more than a further row needs.
pub grown_to :
    (pages : List Handle) (d position rows : ℕ)
    → 0 < d
    → 0 < rows
    → (length pages ≡ pages_of d position)
      ⊎ ((position % d ≡ 0) × (length pages ≡ pages_of d position + 1))
    → length pages ≤ pages_of d (position + rows)
grown_to pages d position rows pos some_rows (inl same) =
    let more = div_mono (position + (d - 1)) (position + rows + (d - 1)) d pos (omega arith) in
    omega (arith, more)
grown_to pages d position rows pos some_rows (inr (aligned, more)) =
    let next = pages_of-boundary d position rows pos some_rows aligned in omega (arith, next)

pub div_ceil-eq :
    {E : Type 0} (v d : ℕ) → v + (d - 1) ≤ usize_max → div_ceil {E = E} v d ≡ ok (pages_of d v)
unfolding div_ceil
div_ceil-eq v d h = ground arith

pub div_ceil-value :
    {E : Type 0} (v d : ℕ) {q : ℕ}
    → div_ceil {E = E} v d ≡ ok q
    → (q ≡ pages_of d v) × (v + (d - 1) ≤ usize_max)
unfolding div_ceil
div_ceil-value v d h = ground arith
