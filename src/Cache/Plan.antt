-- ===== src/Cache/Plan.antt =====
-- src/manager.rs: `plan_evictions`, the choice of the least recently used entries whose removal
-- brings the totals within the limits.
pub mod Bounded
pub mod Distinct
pub mod Released
pub mod Freed
use seqcache.Prelude.{
  ℕ, ◌+◌, Bool, ◌&&◌, false, Option, none, some, List, [], ◌∷◌, ◌++◌, length, leb, ◌==◌,
  if◌then◌else◌, get_key, unwrap_or,
}
use seqcache.Word.{usize_max, checked_add, checked_sub, wrapping_pred}
use seqcache.Error.{CacheError, Result, ok, ok_or, and_then, expect, arithmetic_overflow, ◌>>=◌}
use seqcache.Arena.{Handle, handle_eq}
use seqcache.Backend.{Runtime}
use seqcache.Cache.Records.{PrefixEntry, SequenceCache}
use seqcache.Cache.Monad.{Outcome}
use seqcache.Cache.Pages.{page_record}

-- `HashMap<PageId, usize>`: `*counts.entry(id).or_default() += 1`, and the count after it.
abbrev pub bump : Handle → List (Handle × ℕ) → List (Handle × ℕ)
bump id [] = (id, 1) ∷ []
bump id ((j, n) ∷ m) = if handle_eq j id then (j, n + 1) ∷ m else (j, n) ∷ bump id m

abbrev pub count_of : Handle → List (Handle × ℕ) → ℕ
count_of id [] = 0
count_of id ((j, n) ∷ m) = if handle_eq j id then n else count_of id m

pub record Limits : Type 0 where
  pub byte_limit : ℕ
  pub page_capacity : ℕ
  pub max_snapshot_bytes : ℕ
  pub entry_limit : ℕ

-- The variables of the loop.
pub record Plan : Type 0 where
  pub total : ℕ
  pub pages : ℕ
  pub snapshots : ℕ
  pub entries : ℕ
  pub removed_page_refs : List (Handle × ℕ)
  pub chosen : List ℕ

abbrev pub fits : Limits → Plan → Bool
fits l p =
    leb p.total l.byte_limit
    && leb p.pages l.page_capacity
    && leb p.snapshots l.max_snapshot_bytes
    && leb p.entries l.entry_limit

abbrev pub is_protected : Option ℕ → ℕ → Bool
is_protected none id = false
is_protected (some p) id = p == id

-- The arguments of a call, but for the protected entry.
pub record PlanRequest : Type 0 where
  pub extra_bytes : ℕ
  pub extra_pages : ℕ
  pub byte_limit : ℕ
  pub target_snapshot_bytes : Option ℕ
  pub target_entry_count : Option ℕ

-- The snapshot of an entry, before the round over its pages.
unfoldable pub plan_snapshot :
    {E K S : Type 0} → PrefixEntry K S → Plan → Result (CacheError E) Plan
plan_snapshot e p = do
  snapshots ← ok_or (checked_sub p.snapshots e.snapshot_bytes) arithmetic_overflow
  total ← ok_or (checked_sub p.total e.snapshot_bytes) arithmetic_overflow
  ok (record p { snapshots = snapshots; total = total; entries = wrapping_pred p.entries })

module _ {R : Runtime} where
  abbrev pub limits_of : SequenceCache R → ℕ → Limits
  limits_of c byte_limit = record {
    byte_limit = byte_limit;
    page_capacity = c.page_capacity;
    max_snapshot_bytes = c.config.max_snapshot_bytes;
    entry_limit = unwrap_or c.config.max_prefix_entries usize_max;
  }

  unfoldable pub initial_plan : SequenceCache R → PlanRequest → Outcome R Plan
  initial_plan c q = do
    total ← ok_or (checked_add c.stats.total_managed_bytes q.extra_bytes) arithmetic_overflow
    pages ←
        ok_or
          (and_then (checked_add c.stats.resident_pages c.stats.reserved_pages)
            (λ pages. checked_add pages q.extra_pages))
          arithmetic_overflow
    ok (record {
      total = total;
      pages = pages;
      snapshots = unwrap_or q.target_snapshot_bytes c.stats.retained_snapshot_bytes;
      entries = unwrap_or q.target_entry_count (length c.prefixes);
      removed_page_refs = [];
      chosen = [];
    })

  -- One round over the pages of an entry.
  unfoldable pub plan_page : SequenceCache R → Handle → Plan → Outcome R Plan
  plan_page c id p = do
    let removed = bump id p.removed_page_refs
    r ← page_record id c
    let retired = do
      pages ← ok_or (checked_sub p.pages 1) arithmetic_overflow
      total ← ok_or (checked_sub p.total c.page_bytes) arithmetic_overflow
      ok (record p { pages = pages; total = total; removed_page_refs = removed })
    if R.retirement_is_immediate c.backend
          && r.active_refs == 0
          && count_of id removed == r.prefix_refs
        then retired
        else ok (record p { removed_page_refs = removed })

  unfoldable pub plan_pages : SequenceCache R → List Handle → Plan → Outcome R Plan
  unfolding plan_page
  plan_pages c [] p = ok p
  plan_pages c (id ∷ ids) p = plan_page c id p >>= λ p'. plan_pages c ids p'

  unfoldable pub plan_entry :
      SequenceCache R → ℕ → PrefixEntry R.radix.Key R.Snapshot → Plan → Outcome R Plan
  unfolding plan_snapshot plan_pages
  plan_entry c id e p = do
    p1 ← plan_snapshot e p
    p2 ← plan_pages c e.pages p1
    ok (record p2 { chosen = p2.chosen ++ id ∷ [] })

  -- The loop over the LRU order.
  unfoldable pub plan_loop :
      SequenceCache R → Limits → Option ℕ → List (ℕ × ℕ) → Plan → Outcome R (Option (List ℕ))
  plan_loop c l protected [] p = ok none
  plan_loop c l protected ((_, id) ∷ order) p =
      let skip = plan_loop c l protected order p in
      if is_protected protected id then skip else do
        e ← expect (get_key id c.prefixes)
        p' ← plan_entry c id e p
        let more = plan_loop c l protected order p'
        if fits l p' then ok (some p'.chosen) else more

  unfoldable pub plan_evictions :
      PlanRequest → Option ℕ → SequenceCache R → Outcome R (Option (List ℕ))
  unfolding initial_plan
  plan_evictions q protected c = do
    p ← initial_plan c q
    let l = limits_of c q.byte_limit
    if fits l p then ok (some []) else plan_loop c l protected c.lru p
