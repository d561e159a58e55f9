-- ===== src/Cache/Segments/Prepared.antt =====
-- The pages that `prepare_append` is given describe the same segments as the reservation.
use native.Mathlib.Nat.{mod-lt, div-add-mod', mul-mod_left, add-mod_right, sub-zero, zero-add}
use seqcache.Prelude.{
  ℕ, zero, suc, ◌+◌, ◌-◌, ◌*◌, ◌/◌, ◌%◌, ◌≤◌, ◌<◌, ◌≡◌, ◌≢◌, refl, ap, Option, none, some, List, [],
  ◌∷◌, map, arith, inl, inr, Bool-cases, length, ◌==◌, if◌then◌else◌, lt→ltb, ==_iff,
}
use seqcache.Error.{ok}
use seqcache.Word.{min_of}
use seqcache.Config.{div_ceil}
use seqcache.Config.Sizes.{div_ceil_bounds, below_multiple}
use seqcache.Backend.{BackendAppendPage}
use seqcache.Cache.Segments.Cover.{min_of_bounds}
use seqcache.Cache.Segments.{Span, spans_from, spans, prepared_new, prepared_pages}

-- Where a segment lies: its page offset, its input offset and its rows.
abbrev pub span_geometry : List Span → List (ℕ × ℕ × ℕ)
span_geometry = map (λ s. (s.page_offset, s.input_offset, s.rows))

abbrev pub page_geometry : {P : Type 0} → List (BackendAppendPage P) → List (ℕ × ℕ × ℕ)
page_geometry = map (λ b. (b.page_offset, b.input_offset, b.rows))

spans_done :
    (fuel n rows input position : ℕ) → rows ≤ input → spans_from fuel n rows input position ≡ []
unfolding spans_from
spans_done zero n rows input position h = refl
spans_done (suc fuel) n rows input position h = ground arith

-- From a page boundary on, where the pages are as many as the rows left need.
new_geometry :
    {P : Type 0} (fuel n rows input position : ℕ) (ps : List P)
    → 0 < n
    → input ≤ rows
    → (input < rows → position % n ≡ 0)
    → rows ≤ input + fuel
    → rows ≤ input + length ps * n
    → input + length ps * n < rows + n
    → page_geometry (prepared_new n rows input ps)
      ≡ span_geometry (spans_from fuel n rows input position)
unfolding prepared_new spans_from
new_geometry fuel n rows input position [] pos le al enough up low =
    rw (spans_done fuel n rows input position (omega arith))
new_geometry zero n rows input position (p ∷ ps) pos le al enough up low = absurd (omega arith)
new_geometry (suc fuel) n rows input position (p ∷ ps) pos le al enough up low =
    let more : input < rows = omega arith in
    let k : ℕ = min_of (rows - input) n in
    let (fits, room, some_row) = min_of_bounds (rows - input) n in
    let one = some_row (omega arith) pos in
    let next =
      new_geometry fuel n rows (input + k) (position + k) ps pos (omega arith)
        (λ h. let whole : k ≡ n = ground arith in rw (whole, add-mod_right position n) (al more))
        (omega arith) (ground arith) (ground arith) in
    rw (lt→ltb input rows more, al more, sub-zero) (ap (◌∷◌ (0, input, k)) next)

round_up : (p n : ℕ) → 0 < n → (p + (n - p % n)) % n ≡ 0
round_up p n pos =
    let split = div-add-mod' p n in
    let below = mod-lt p pos in
    let e : p + (n - p % n) ≡ (p / n + 1) * n = omega arith in rw e (mul-mod_left (p / n + 1) n)

-- The first segment fills the page that the position is within.
tail_geometry :
    {P : Type 0} (fuel n rows position : ℕ) (tail : P) (ps : List P)
    → 0 < n
    → 0 < rows
    → position % n ≢ 0
    → rows ≤ suc fuel
    → (position / n + 1) * n + length ps * n < position + rows + n
    → position + rows ≤ (position / n + 1) * n + length ps * n
    → page_geometry (prepared_pages n rows position (some tail) ps)
      ≡ span_geometry (spans_from (suc fuel) n rows 0 position)
unfolding prepared_pages spans_from
tail_geometry fuel n rows position tail ps pos some_row within enough low up =
    let k : ℕ = min_of rows (n - position % n) in
    let split = div-add-mod' position n in
    let below = mod-lt position pos in
    let (fits, room, pick) = min_of_bounds rows (n - position % n) in
    let one = pick some_row (omega arith) in
    let next =
      new_geometry fuel n rows k (position + k) ps pos fits
        (λ h. let whole : k ≡ n - position % n = ground arith in rw whole (round_up position n pos))
        (omega arith) (ground arith) (ground arith) in
    rw (lt→ltb 0 rows some_row, sub-zero) (rw zero-add (ap (◌∷◌ (position % n, 0, k)) next))

same_multiple : (a b n : ℕ) → a * n < b * n + n → b * n < a * n + n → a ≡ b
same_multiple a b n h k =
    let le = below_multiple a b n h in let ge = below_multiple b a n k in omega arith

abbrev pub tail_if : {P : Type 0} → ℕ → ℕ → P → Option P
tail_if n position tail = if position % n == 0 then none else some tail

-- For an append of at least one row, with a page of at least one token, where the sequence has exactly
-- the pages that its position needs and the new ones are as many as the rows need more (so not for a
-- sequence with a page more than its position needs, which `validate` accepts): the pages handed to
-- the backend's `prepare_append`, the writable tail where the position is within a page and then the
-- new ones, lie as the segments of the reservation.
pub prepared_pages-spans :
    {P E : Type 0} (page_tokens rows position old_count : ℕ) (tail : P) (new_pages : List P)
    → 0 < page_tokens
    → 0 < rows
    → div_ceil {E = E} position page_tokens ≡ ok old_count
    → div_ceil {E = E} (position + rows) page_tokens ≡ ok (old_count + length new_pages)
    → page_geometry
        (prepared_pages page_tokens rows position (tail_if page_tokens position tail) new_pages)
      ≡ span_geometry (spans page_tokens rows position)
unfolding prepared_pages
prepared_pages-spans n zero position old tail ps pos some_row before after = absurd (omega arith)
prepared_pages-spans n (suc r) position old tail ps pos some_row before after =
    let (enough, tight) = div_ceil_bounds position n old pos before in
    let (up, low) = div_ceil_bounds (position + suc r) n (old + length ps) pos after in
    let split = div-add-mod' position n in
    let below = mod-lt position pos in
    elim (Bool-cases (position % n == 0)) [
      | inl aligned ↦
          let zero_offset = (==_iff _ 0).0 aligned in
          let same : old ≡ position / n =
            same_multiple old (position / n) n (omega arith) (omega arith) in
          let at : old * n ≡ position = rw same (omega arith) in
          rw aligned (
            new_geometry (suc r) n (suc r) 0 position ps pos (omega arith) (λ _. zero_offset)
              (omega arith) (omega arith) (omega arith))
      | inr within ↦
          let some_offset : position % n ≢ 0 = ground arith in
          let same : old ≡ position / n + 1 =
            same_multiple old (position / n + 1) n (omega arith) (omega arith) in
          let at : old * n ≡ (position / n + 1) * n = rw same refl in
          rw within (
            tail_geometry r n (suc r) position tail ps pos some_row some_offset (omega arith)
              (omega arith) (omega arith))
    ]
