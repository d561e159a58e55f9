-- ===== src/Tests/Ready.antt =====
-- An append that the checks of a small cache let through.
use seqcache.Prelude.{◌+◌, ◌≤◌, ◌≡◌, refl, some, arith}
use seqcache.Word.{usize_max, u32_max}
use seqcache.Error.{ok}
use seqcache.Arena.{resolve, slot_of}
use seqcache.Config.{div_ceil}
use seqcache.Cache.Reserve.{AppendPlan}
use seqcache.Cache.Checks.{plan_append}
use seqcache.Cache.Pages.{page_record}
use seqcache.Cache.Validate.{check_sequence, check_pending_pages}
use seqcache.Cache.Append.Ready.{plan_append-ready}
use seqcache.Tests.Runtime.{small_cache, small_sequence, handle}
use seqcache.Tests.Accounts.{small_cache-IsAccounted}

accepted : check_sequence small_sequence small_cache ≡ ok tt
unfolding check_sequence check_pending_pages div_ceil page_record resolve slot_of usize_max
accepted = refl

found : resolve small_cache.sequences (handle 0) ≡ some small_sequence
unfolding resolve slot_of
found = refl

-- From position 3, five rows fill the tail and one more page.
plan_append-ready_example :
    (plan : AppendPlan (Unit {0})) × (plan_append (handle 0) 5 small_cache ≡ ok plan)
    × (plan.new_position ≡ 8)
    × (1 + plan.new_page_count ≡ 2)
    × (plan.new_page_count ≤ 2)
unfolding u32_max
plan_append-ready_example =
    plan_append-ready (handle 0) 5 small_cache small_sequence found refl (omega arith) accepted
      small_cache-IsAccounted (omega arith) (omega arith) (omega arith)
