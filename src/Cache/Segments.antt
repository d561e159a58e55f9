-- ===== src/Cache/Segments.antt =====
-- src/manager.rs: how `reserve_append` cuts the rows of an append into page segments.
pub mod Cover
pub mod Place
pub mod Prepared
use seqcache.Prelude.{
  ℕ, zero, suc, ◌+◌, ◌-◌, ◌/◌, ◌%◌, Bool, Option, none, some, List, [], ◌∷◌, length, get_elem?, ltb,
  if◌then◌else◌,
}
use seqcache.Word.{min_of}
use seqcache.Error.{CacheError, Result, ok, ok_or, invariant, ◌>>=◌}
use seqcache.Arena.{Handle}
use seqcache.Backend.{BackendAppendPage}
use seqcache.Cache.Records.{AppendSegment}

-- A segment without its page: an element of the loop over `logical_position`.
pub record Span : Type 0 where
  pub logical_page : ℕ
  pub page_offset : ℕ
  pub input_offset : ℕ
  pub rows : ℕ

-- The loop `while input_offset < rows`. A round takes at least one row, so `rows` is fuel enough.
unfoldable pub spans_from : ℕ → ℕ → ℕ → ℕ → ℕ → List Span
spans_from zero page_tokens rows input_offset position = []
spans_from (suc fuel) page_tokens rows input_offset position =
    let page_offset = position % page_tokens in
    let segment_rows = min_of (rows - input_offset) (page_tokens - page_offset) in
    let rest =
      record {
        logical_page = position / page_tokens;
        page_offset = page_offset;
        input_offset = input_offset;
        rows = segment_rows;
      }
      ∷ spans_from fuel page_tokens rows (input_offset + segment_rows) (position + segment_rows) in
    if ltb input_offset rows then rest else []

abbrev pub spans : ℕ → ℕ → ℕ → List Span
spans page_tokens rows position = spans_from rows page_tokens rows 0 position

abbrev pub segment_at : Handle → Span → AppendSegment
segment_at page s = record {
  page = page;
  page_offset = s.page_offset;
  input_offset = s.input_offset;
  rows = s.rows;
}

module _ {E : Type 0} where
  -- The page of a segment: one of the sequence's, or one of the new ones behind them.
  unfoldable pub span_page : List Handle → List Handle → ℕ → Result (CacheError E) Handle
  span_page old_pages new_pages logical_page =
      if ltb logical_page (length old_pages)
      then ok_or (get_elem? old_pages logical_page)
          (invariant "existing page missing from append span")
      else ok_or (get_elem? new_pages (logical_page - length old_pages))
          (invariant "new page missing from append span")

  unfoldable pub place :
      List Handle → List Handle → List Span → Result (CacheError E) (List AppendSegment)
  unfolding span_page
  place old_pages new_pages [] = ok []
  place old_pages new_pages (s ∷ ss) = do
    page ← span_page old_pages new_pages s.logical_page
    rest ← place old_pages new_pages ss
    ok (segment_at page s ∷ rest)

-- The pages of `prepared` that are new, with the input offset that the first of them starts at.
unfoldable pub prepared_new : {P : Type 0} → ℕ → ℕ → ℕ → List P → List (BackendAppendPage P)
prepared_new page_tokens rows input_offset [] = []
prepared_new page_tokens rows input_offset (p ∷ ps) =
    let segment_rows = min_of (rows - input_offset) page_tokens in
    record {
      page = p;
      page_offset = 0;
      input_offset = input_offset;
      rows = segment_rows;
      existing = Bool.false;
    }
    ∷ prepared_new page_tokens rows (input_offset + segment_rows) ps

-- `prepared`: the writable tail, if the position is within a page, and then the new pages.
unfoldable pub prepared_pages :
    {P : Type 0} → ℕ → ℕ → ℕ → Option P → List P → List (BackendAppendPage P)
unfolding prepared_new
prepared_pages page_tokens rows position none ps = prepared_new page_tokens rows 0 ps
prepared_pages page_tokens rows position (some tail) ps =
    let page_offset = position % page_tokens in
    let segment_rows = min_of rows (page_tokens - page_offset) in
    record {
      page = tail;
      page_offset = page_offset;
      input_offset = 0;
      rows = segment_rows;
      existing = Bool.true;
    }
    ∷ prepared_new page_tokens rows segment_rows ps
