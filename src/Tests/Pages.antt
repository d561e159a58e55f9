-- ===== src/Tests/Pages.antt =====
-- Page handles given out and taken back, at concrete states.
use seqcache.Prelude.{ℕ, ◌≡◌, refl, some, none, [], ◌∷◌, true, arith}
use seqcache.Word.{u32_max}
use seqcache.Error.{ok}
use seqcache.Arena.{Arena, handle_new, insert, push_slot, prepare_slot, slot_of, vacate}
use seqcache.Arena.Sound.{IsSound}
use seqcache.Cache.Records.{PageRecord, SequenceCache}
use seqcache.Cache.Pages.{insert_page, remove_page}
use seqcache.Cache.Pages.Handles.{Moves, insert_page-Moves, remove_page-Moves}
use seqcache.Cache.Pages.{
  increment_active_ref, decrement_active_ref, increment_prefix_ref, decrement_prefix_ref,
}
use seqcache.Cache.Accounted.{IsAccounted}
use seqcache.Cache.Pages.Counts.{Settles, reference_counts-Settles}
use seqcache.Tests.Runtime.{small_runtime, small_cache, tail_page, handle}

abbrev full_page : PageRecord ℕ
full_page = record tail_page { physical = some 1; valid_tokens = 4; sealed = true }

abbrev two_pages : Arena (PageRecord ℕ)
two_pages = record {
  slots =
      record { generation = 0; value = some tail_page }
      ∷ record { generation = 0; value = some full_page }
      ∷ [];
  free = [];
}

abbrev one_freed : Arena (PageRecord ℕ)
one_freed = record {
  slots =
      record { generation = 1; value = none }
      ∷ record { generation = 0; value = some full_page }
      ∷ [];
  free = 0 ∷ [];
}

abbrev with_pages : Arena (PageRecord ℕ) → SequenceCache small_runtime
with_pages pages = record small_cache { pages = pages }

small_pages-IsSound : IsSound (small_cache.pages)
small_pages-IsSound = record { unused = tt; sized = omega arith }

page_inserted : insert_page full_page small_cache ≡ (ok (handle 1), with_pages two_pages)
unfolding insert_page insert push_slot prepare_slot handle_new u32_max
page_inserted = refl

insert_page-Moves_example : Moves (small_cache.pages) (handle 1) (some full_page) two_pages
insert_page-Moves_example =
    insert_page-Moves full_page small_cache (with_pages two_pages) small_pages-IsSound page_inserted

two_pages-IsSound : IsSound two_pages
two_pages-IsSound =
    (insert_page-Moves full_page small_cache (with_pages two_pages) small_pages-IsSound
      page_inserted).0

page_removed : remove_page (handle 0) (with_pages two_pages) ≡ (ok tt, with_pages one_freed)
unfolding remove_page slot_of vacate u32_max
page_removed = refl

remove_page-Moves_example : Moves two_pages (handle 0) none one_freed
remove_page-Moves_example =
    remove_page-Moves (handle 0) (with_pages two_pages) (with_pages one_freed) two_pages-IsSound
      page_removed

small_cache-IsAccounted : IsAccounted small_cache
small_cache-IsAccounted = omega arith

reference_counts-Settles_example :
    Settles small_cache (increment_active_ref (handle 0) small_cache)
    × Settles small_cache (decrement_active_ref (handle 0) small_cache)
    × Settles small_cache (increment_prefix_ref (handle 0) small_cache)
    × Settles small_cache (decrement_prefix_ref (handle 0) small_cache)
reference_counts-Settles_example =
    reference_counts-Settles (handle 0) small_cache small_cache-IsAccounted
