-- ===== src/Cache/Partial.antt =====
-- src/manager.rs: what `commit_append` computes before it calls the backend.
pub mod Committed
use seqcache.Prelude.{
  ℕ, ◌+◌, ◌-◌, ◌||◌, List, [], ◌∷◌, ◌++◌, length, take, drop, ltb, ◌==◌, if◌then◌else◌,
}
use seqcache.Word.{checked_add, checked_sub, min_of}
use seqcache.Error.{
  Result, ok, panic, ok_or, arithmetic_overflow, invariant, invalid_position, no_append_pending,
  reject_if, ◌>>=◌, ◌>>◌,
}
use seqcache.Arena.{Handle}
use seqcache.Config.{div_ceil}
use seqcache.Backend.{Runtime}
use seqcache.Cache.Records.{AppendSegment, AppendReservation, SequenceCache}
use seqcache.Cache.Monad.{Outcome}
use seqcache.Cache.Pages.{page_record}
use seqcache.Cache.Sequences.{sequence_record}
use seqcache.Cache.Append.{validate_reservation}

-- `take_while`, and the cut of the last segment: the segments of the committed rows.
unfoldable pub committed_segments : ℕ → List AppendSegment → List AppendSegment
committed_segments rows [] = []
committed_segments rows (s ∷ ss) =
    let rest =
      record s { rows = min_of s.rows (rows - s.input_offset) } ∷ committed_segments rows ss in
    if ltb s.input_offset rows then rest else []

-- What `commit_append` computes before it calls the backend.
pub record CommitPlan : Type 0 where
  pub new_position : ℕ
  pub kept_new_pages : List Handle
  pub released_pages : List Handle
  pub committed_pages : List Handle
  pub segments : List AppendSegment
  pub sealed_ids : List Handle
  pub next_reserved_pages : ℕ
  pub next_sequence_reserved_pages : ℕ

-- `new_pages.split_at(n)`, which panics if `n` is too large.
abbrev pub split_at : {E : Type 0} → ℕ → List Handle → Result E (List Handle × List Handle)
split_at n ids = if ltb (length ids) n then panic else ok (take n ids, drop n ids)

module _ {R : Runtime} where
  -- The pages that become full and were not sealed.
  unfoldable pub newly_sealed : ℕ → List AppendSegment → SequenceCache R → Outcome R (List Handle)
  newly_sealed page_tokens [] c = ok []
  newly_sealed page_tokens (s ∷ ss) c =
      let rest = newly_sealed page_tokens ss c in
      if s.page_offset + s.rows == page_tokens
      then (page_record s.page c >>= λ p.
          rest >>= λ ids. ok (if p.sealed then ids else s.page ∷ ids))
      else rest

  unfoldable pub plan_commit : AppendReservation → ℕ → SequenceCache R → Outcome R CommitPlan
  unfolding committed_segments newly_sealed
  plan_commit r rows c = do
    validate_reservation r c
    reject_if (rows == 0 || ltb r.rows rows) invalid_position
    s ← sequence_record r.sequence c
    pending ← ok_or s.pending no_append_pending
    new_position ← ok_or (checked_add r.start_position rows) arithmetic_overflow
    count ← div_ceil new_position c.config.page_tokens
    kept ←
        ok_or (checked_sub count (length s.pages))
          (invariant "partial commit page count moved backwards")
    (kept_pages, released_pages) ← split_at kept pending.new_pages
    next ← ok_or (checked_add c.stats.reserved_pages (length released_pages)) arithmetic_overflow
    next_sequence ← ok_or (checked_add s.reserved_pages (length released_pages)) arithmetic_overflow
    let segments = committed_segments rows r.segments
    sealed ← newly_sealed c.config.page_tokens segments c
    ok (record {
      new_position = new_position;
      kept_new_pages = kept_pages;
      released_pages = released_pages;
      committed_pages = s.pages ++ kept_pages;
      segments = segments;
      sealed_ids = sealed;
      next_reserved_pages = next;
      next_sequence_reserved_pages = next_sequence;
    })
