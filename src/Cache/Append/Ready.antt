-- ===== src/Cache/Append/Ready.antt =====
-- An append within the maximum position of a sequence passes the checks of `reserve_append`: what was
-- reserved at the admission is enough.
use seqcache.Prelude.{
  ℕ, ◌+◌, ◌-◌, ◌≤◌, ◌<◌, ◌≡◌, refl, true, false, none, some, length, ltb, leb, ◌==◌, arith,
}
use seqcache.Word.{usize_max, u32_max}
use seqcache.Error.{ok}
use seqcache.Arena.{Handle, resolve}
use seqcache.Arena.Weights.{weigh-write}
use seqcache.Backend.{Runtime}
use seqcache.Cache.Records.{SequenceRecord, SequenceCache}
use seqcache.Cache.Accounted.{IsAccounted}
use seqcache.Cache.Pages.{prepare_page_slots}
use seqcache.Cache.Sequences.{sequence_record}
use seqcache.Cache.Sequences.Accounts.{live_values-weigh}
use seqcache.Cache.Reserve.{AppendPlan, writable_tail}
use seqcache.Cache.Checks.{plan_append}
use seqcache.Cache.Validate.{check_sequence}
use seqcache.Cache.Append.Sizes.{pages_of, div_mono, grown_to, div_ceil-eq}
use seqcache.Cache.Append.Accepted.{check_sequence-Accepted}

module _ {R : Runtime} where
  prepare_page_slots-eq_ok :
      (count promised : ℕ) (c : SequenceCache R)
      → count ≤ promised
      → length c.pages.slots + (promised - length c.pages.free) ≤ u32_max + 1
      → prepare_page_slots count c ≡ ok tt
  unfolding prepare_page_slots u32_max usize_max
  prepare_page_slots-eq_ok count promised c few room = ground arith

  le-reserved_pages :
      (id : Handle) (c : SequenceCache R) (s : SequenceRecord R.AppendTransaction)
      → IsAccounted c
      → resolve c.sequences id ≡ some s
      → s.reserved_pages ≤ c.stats.reserved_pages
  le-reserved_pages id c s a live =
      let moved =
        weigh-write (λ t. t.reserved_pages) c.sequences id (record s { reserved_pages = 0 }) live in
      omega (arith, a.reserved, live_values-weigh (λ t. t.reserved_pages) c.sequences.slots, moved)

  -- A sequence that `validate` accepts, without a pending append and with room in the page arena for
  -- the pages promised to it, passes the checks of an append of any rows up to its maximum position:
  -- they find the new position and the pages that are missing for it, no more than were promised.
  pub plan_append-ready :
      (id : Handle) (rows : ℕ) (c : SequenceCache R) (s : SequenceRecord R.AppendTransaction)
      → resolve c.sequences id ≡ some s
      → s.pending ≡ none
      → 0 < c.config.page_tokens
      → check_sequence s c ≡ ok tt
      → IsAccounted c
      → length c.pages.slots + (s.reserved_pages - length c.pages.free) ≤ u32_max + 1
      → 0 < rows
      → s.position + rows ≤ s.max_position
      → (plan : AppendPlan R.AppendTransaction) × (plan_append id rows c ≡ ok plan)
        × (plan.new_position ≡ s.position + rows)
        × (length s.pages + plan.new_page_count ≡ pages_of c.config.page_tokens (s.position + rows))
        × (plan.new_page_count ≤ s.reserved_pages)
  unfolding plan_append sequence_record
  plan_append-ready id rows c s live idle pos accepted a room some_rows within =
      let d = c.config.page_tokens in
      let need = pages_of d (s.position + rows) in
      let h = check_sequence-Accepted s c idle pos accepted in
      let grown : length s.pages ≤ need =
        grown_to s.pages d s.position rows pos some_rows h.sized in
      let most =
        div_mono (s.position + rows + (d - 1)) (s.max_position + (d - 1)) d pos (omega arith) in
      let few : need - length s.pages ≤ s.reserved_pages = omega (arith, h.promised, most) in
      let global = le-reserved_pages id c s a live in
      let nonzero : (rows == 0) ≡ false = ground arith in
      let small : leb (s.position + rows) usize_max ≡ true = ground (arith, h.fits) in
      let below : ltb s.max_position (s.position + rows) ≡ false = ground arith in
      let counted : leb (length s.pages) need ≡ true = ground (arith, grown) in
      let admitted : ltb s.reserved_pages (need - length s.pages) ≡ false = ground (arith, few) in
      let shared : leb (need - length s.pages) c.stats.reserved_pages ≡ true =
        ground (arith, few, global) in
      (
        record {
          old = s;
          tail = writable_tail d s.position s.pages;
          new_position = s.position + rows;
          new_page_count = need - length s.pages;
          next_reserved_pages = c.stats.reserved_pages - (need - length s.pages);
        },
        rw
            (
              nonzero,
              live,
              idle,
              small,
              below,
              h.private,
              div_ceil-eq (s.position + rows) d (omega (arith, h.fits)),
              counted,
              admitted,
              shared,
              prepare_page_slots-eq_ok (need - length s.pages) s.reserved_pages c few room,
            )
            refl,
        refl,
        omega (arith, grown),
        few,
      )
