-- ===== src/Cache/Lookup.antt =====
-- src/manager.rs: `lookup_prefix`, `contains_prefix`, `page_table` and `reclaim_deferred`.
use seqcache.Prelude.{
  ℕ, ◌-◌, ◌%◌, Bool, ◌&&◌, not, Option, none, some, List, length, take, ltb, leb, ◌==◌,
  if◌then◌else◌, get_key, is_some,
}
use seqcache.Word.{isize_capped}
use seqcache.Error.{CacheError, Result, ok, err, panic, and_then, invariant}
use seqcache.Error
use seqcache.Exec.{pure, gets, modify, raise_if, state, ◌>>=◌, ◌>>◌}
use seqcache.Arena.{Handle}
use seqcache.Config.{checkpoint_position}
use seqcache.Backend.{Runtime}
use seqcache.Index.{lookup_key, longest, exact}
use seqcache.Cache.Records.{
  SequenceCache, PrefixEntry, PrefixMatch, prefix_lookups, prefix_hits, prefix_misses,
  prefix_restored_tokens,
}
use seqcache.Cache.Monad.{Outcome, Action, add, inc, on_backend, or_backend_error}
use seqcache.Cache.Refresh.{refresh_stats}
use seqcache.Cache.Clock.{tick, refresh_entry}
use seqcache.Cache.Sequences.{sequence_record}

pub record PageTableView : Type 0 where
  pub pages : List Handle
  pub position : ℕ
  pub page_tokens : ℕ

abbrev pub match_of : {K S : Type 0} → ℕ → PrefixEntry K S → PrefixMatch
match_of id e = record { entry = id; position = e.position; page_count = length e.pages }

module _ {R : Runtime} where
  unfoldable pub cacheable_prefix_tokens : SequenceCache R → ℕ → ℕ
  cacheable_prefix_tokens c prompt_tokens = checkpoint_position c.config.page_tokens prompt_tokens

  abbrev pub find_in : SequenceCache R → List ℕ → ℕ → Option ℕ
  find_in c tokens position =
      if position == 0
      then none
      else and_then (lookup_key c.index (take position tokens) c.config.page_tokens)
          (longest c.index)

  abbrev pub hit_entry :
      ℕ → ℕ → Option (PrefixEntry R.radix.Key R.Snapshot) → Action R (Option PrefixMatch)
  hit_entry clock id none = pure none
  hit_entry clock id (some e) = modify (refresh_entry clock id e) >> pure (some (match_of id e))

  abbrev pub touch_found : Option ℕ → Action R (Option PrefixMatch)
  touch_found none = pure none
  touch_found (some id) = do
    clock ← state tick
    e ← gets (λ c. get_key id c.prefixes)
    hit_entry clock id e

  abbrev pub count_lookup : Option PrefixMatch → Action R (Unit {0})
  count_lookup none = inc prefix_misses
  count_lookup (some hit) =
      inc prefix_hits >> add prefix_restored_tokens (isize_capped hit.position)

  unfoldable pub lookup_prefix : List ℕ → Action R (Option PrefixMatch)
  lookup_prefix tokens = do
    inc prefix_lookups
    found ← gets (λ c. find_in c tokens (cacheable_prefix_tokens c (length tokens)))
    result ← touch_found found
    count_lookup result
    pure result

  unfoldable pub contains_prefix : SequenceCache R → List ℕ → ℕ → Bool
  contains_prefix c tokens position =
      not (position == 0)
      && position % c.config.page_tokens == 0
      && leb position (length tokens)
      && is_some (exact c.index (take position tokens) c.config.page_tokens)

  unfoldable pub page_table : Handle → SequenceCache R → Outcome R PageTableView
  page_table id c = Error.◌>>=◌ (sequence_record id c) (λ s.
      ok (record { pages = s.pages; position = s.position; page_tokens = c.config.page_tokens }))

  unfoldable pub reclaim_deferred : Action R ℕ
  reclaim_deferred = do
    polled ← on_backend R.poll_reclaimed
    reclaimed ← or_backend_error polled
    excess ← gets (λ c. ltb c.deferred_pages reclaimed)
    raise_if excess (invariant "backend reclaimed more pages than were deferred")
    modify (λ c. record c { deferred_pages = c.deferred_pages - reclaimed })
    refresh_stats
    pure reclaimed
