-- ===== src/Cache/Evict.antt =====
-- src/manager.rs: `commit_evictions` and `evict_prefix`.
use seqcache.Prelude.{
  ℕ, Bool, ◌&&◌, false, Option, none, some, List, [], ◌∷◌, length, ◌==◌, if◌then◌else◌, get_key,
  remove_key, remove_pair, is_some, any_of,
}
use seqcache.Word.{checked_add, checked_sub, checked_mul, isize_capped}
use seqcache.Error.{
  CacheError, Result, ok, err, panic, ok_or, arithmetic_overflow, invariant, stale_prefix,
}
use seqcache.Error
use seqcache.Exec.{pure, reads, gets, modify, each, raise_if, ◌>>=◌, ◌>>◌}
use seqcache.Arena.{Handle, handle_eq, resolve}
use seqcache.Backend.{Runtime}
use seqcache.Index.{remove_entry_key}
use seqcache.Cache.Records.{
  PageRecord, PrefixEntry, SequenceCache, prefix_evictions, bytes_made_reclaimable,
}
use seqcache.Cache.Monad.{Outcome, Action, add, inc}
use seqcache.Cache.Refresh.{with_stats, refresh_stats}
use seqcache.Cache.Pages.{decrement_prefix_ref}
use seqcache.Cache.Plan.{bump}
use seqcache.Cache.Retire.{retire_page_ids}

abbrev pub bump_all : List Handle → List (Handle × ℕ) → List (Handle × ℕ)
bump_all [] m = m
bump_all (id ∷ ids) m = bump_all ids (bump id m)

abbrev pub loses_all : {P : Type 0} → Option (PageRecord P) → ℕ → Bool
loses_all none removed = false
loses_all (some p) removed = p.active_refs == 0 && p.prefix_refs == removed

module _ {R : Runtime} where
  unfoldable pub prefix_entry : ℕ → SequenceCache R → Outcome R (PrefixEntry R.radix.Key R.Snapshot)
  prefix_entry id c = ok_or (get_key id c.prefixes) stale_prefix

  -- The first loop: the removed references of each page, and the snapshot bytes that go.
  unfoldable pub removed_by :
      List ℕ → List (Handle × ℕ) → ℕ → SequenceCache R → Outcome R (List (Handle × ℕ) × ℕ)
  unfolding prefix_entry
  removed_by [] refs bytes c = ok (refs, bytes)
  removed_by (id ∷ ids) refs bytes c = Error.◌>>=◌ (prefix_entry id c) (λ e.
      Error.◌>>=◌ (ok_or (checked_add bytes e.snapshot_bytes) arithmetic_overflow)
        (λ bytes'. removed_by ids (bump_all e.pages refs) bytes' c))

  -- The pages that no sequence uses and whose every reference goes.
  unfoldable pub retire_ids : SequenceCache R → List (Handle × ℕ) → List Handle
  retire_ids c [] = []
  retire_ids c ((id, removed) ∷ m) =
      let rest = retire_ids c m in
      if loses_all (resolve c.pages id) removed then id ∷ rest else rest

  unfoldable pub release_page : List Handle → Handle → Action R (Unit {0})
  release_page retired id =
      if any_of (handle_eq id) retired then pure tt else decrement_prefix_ref id

  -- One round of the last loop.
  unfoldable pub remove_entry : List Handle → ℕ → Action R (Unit {0})
  unfolding release_page
  remove_entry retired id = do
    e ← reads (prefix_entry id)
    modify (λ c. record c {
      prefixes = remove_key id c.prefixes;
      lru = remove_pair (e.last_used, id) c.lru;
    })
    (λ c.
        let (r, index) = remove_entry_key e.key e.blocks c.index in (r, record c { index = index }))
    each (release_page retired) e.pages
    inc prefix_evictions

  unfoldable pub commit_batch : List ℕ → Action R (Unit {0})
  unfolding removed_by retire_ids remove_entry
  commit_batch entries = do
    (refs, bytes) ← reads (removed_by entries [] 0)
    retired ← gets (λ c. retire_ids c (R.hash_order refs))
    reclaimable ← reads (λ c. ok_or (checked_mul (length retired) c.page_bytes) arithmetic_overflow)
    snapshot_bytes ← reads (λ c.
        ok_or (checked_sub c.stats.retained_snapshot_bytes bytes)
          (invariant "evicted snapshots exceed retained accounting"))
    retire_page_ids retired
    each (remove_entry retired) entries
    modify (with_stats (λ s. record s { retained_snapshot_bytes = snapshot_bytes }))
    add bytes_made_reclaimable (isize_capped reclaimable)
    refresh_stats

  unfoldable pub commit_evictions : List ℕ → Action R (Unit {0})
  unfolding commit_batch
  commit_evictions [] = pure tt
  commit_evictions (id ∷ ids) = commit_batch (id ∷ ids)

  unfoldable pub evict_prefix : ℕ → Action R (Unit {0})
  evict_prefix entry = do
    present ← gets (λ c. is_some (get_key entry c.prefixes))
    raise_if (if present then false else Bool.true) stale_prefix
    commit_evictions (entry ∷ [])
    refresh_stats
