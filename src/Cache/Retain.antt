-- ===== src/Cache/Retain.antt =====
-- src/manager.rs: `retain_prefix`.
use seqcache.Prelude.{
  ℕ, ◌%◌, ◌||◌, not, Option, none, some, List, [], ◌∷◌, length, take, ltb, ◌==◌, if◌then◌else◌,
  insert_key, insert_pair,
}
use seqcache.Word.{u64_max, checked_add, checked_sub, checked_add_to}
use seqcache.Error.{
  CacheError, Result, ok, err, panic, ok_or, and_then, arithmetic_overflow, invariant, id_exhausted,
  invalid_token_prefix, snapshot_capacity, prefix_capacity, reject_if,
}
use seqcache.Error
use seqcache.Exec.{pure, lift, reads, gets, modify, raise, each, state, attempt, ◌>>=◌, ◌>>◌}
use seqcache.Arena.{Handle}
use seqcache.Backend.{Runtime}
use seqcache.Index.{PreparedKey, exact, prepare_key, rollback_key, commit_key}
use seqcache.Cache.Records.{
  RetainOutcome, inserted, duplicate, SequenceCache, prefix_insertions, prefix_duplicate_insertions,
}
use seqcache.Cache.Monad.{Outcome, Action, inc}
use seqcache.Cache.Refresh.{with_stats, refresh_stats}
use seqcache.Cache.Clock.{tick, refresh_entry}
use seqcache.Cache.Pages.{page_record, increment_prefix_ref}
use seqcache.Cache.Sequences.{sequence_record}
use seqcache.Cache.Plan.{plan_evictions}
use seqcache.Cache.Evict.{prefix_entry, commit_evictions}

-- What the checks of `retain_prefix` pass on.
pub record Retained (S : Type 0) : Type 0 where
  pub position : ℕ
  pub pages : List Handle
  pub tokens : List ℕ
  pub snapshot : S
  pub snapshot_bytes : ℕ

module _ {R : Runtime} where
  unfoldable pub check_sealed : ℕ → List Handle → SequenceCache R → Outcome R (Unit {0})
  check_sealed page_tokens [] c = ok tt
  check_sealed page_tokens (id ∷ ids) c = Error.◌>>=◌ (page_record id c) (λ p.
      if not p.sealed || not (p.valid_tokens == page_tokens)
      then err (invariant "prefix contains an unsealed page")
      else check_sealed page_tokens ids c)

  unfoldable pub check_prefix_refs : List Handle → SequenceCache R → Outcome R (Unit {0})
  check_prefix_refs [] c = ok tt
  check_prefix_refs (id ∷ ids) c = Error.◌>>=◌ (page_record id c) (λ p.
      Error.◌>>=◌ (ok_or (checked_add p.prefix_refs 1) arithmetic_overflow)
        (λ _. check_prefix_refs ids c))

  abbrev pub prepare_prefix_id : SequenceCache R → Outcome R (Unit {0})
  prepare_prefix_id c = reject_if (c.next_prefix_id == u64_max) (id_exhausted "prefix entry")

  -- `evictions.iter().try_fold(…)`
  unfoldable pub evicted_bytes : List ℕ → ℕ → SequenceCache R → Outcome R ℕ
  evicted_bytes [] total c = ok total
  evicted_bytes (id ∷ ids) total c = Error.◌>>=◌ (prefix_entry id c) (λ e.
      Error.◌>>=◌ (ok_or (checked_add total e.snapshot_bytes) arithmetic_overflow)
        (λ total'. evicted_bytes ids total' c))

  abbrev pub on_index_prepare : List ℕ → Action R (PreparedKey R.radix)
  on_index_prepare tokens c =
      let (r, index) = prepare_key tokens c.config.page_tokens c.index in
      (r, record c { index = index })

  abbrev pub on_index_rollback : PreparedKey R.radix → Action R (Unit {0})
  on_index_rollback prepared c =
      let (r, index) = rollback_key prepared c.index in (r, record c { index = index })

  -- The exact prefix is there: its entry becomes the latest.
  unfoldable pub retain_duplicate : ℕ → Action R RetainOutcome
  retain_duplicate id = do
    clock ← state tick
    e ← reads (prefix_entry id)
    modify (refresh_entry clock id e)
    inc prefix_duplicate_insertions
    pure (duplicate id)

  abbrev pub evict_or_roll_back :
      PreparedKey R.radix
      → Result (Error.CacheError R.BackendError) (Unit {0})
      → Action R (Unit {0})
  evict_or_roll_back prepared (ok _) = pure tt
  evict_or_roll_back prepared (err e) = on_index_rollback prepared >> raise e
  evict_or_roll_back prepared panic = lift panic

  unfoldable pub publish_entry :
      Retained R.Snapshot → PreparedKey R.radix → ℕ → Action R RetainOutcome
  publish_entry x prepared retained_snapshot_bytes = do
    id ← gets (λ c. c.next_prefix_id)
    next ← lift (ok_or (checked_add_to u64_max id 1) (id_exhausted "prefix entry"))
    modify (λ c. record c { next_prefix_id = next })
    each increment_prefix_ref x.pages
    modify (λ c. record c { index = commit_key c.index prepared id })
    clock ← state tick
    modify (λ c. record c {
      prefixes =
          insert_key id
            (record {
              key = prepared.key;
              blocks = prepared.blocks;
              pages = x.pages;
              position = x.position;
              snapshot = x.snapshot;
              snapshot_bytes = x.snapshot_bytes;
              last_used = clock;
            })
            c.prefixes;
      lru = insert_pair (clock, id) c.lru;
    })
    modify (with_stats (λ s. record s { retained_snapshot_bytes = retained_snapshot_bytes }))
    inc prefix_insertions
    refresh_stats
    pure (inserted id)

  -- The rest of `retain_prefix`, once a plan of evictions is found or not.
  unfoldable pub retain_planned :
      Retained R.Snapshot → ℕ → PreparedKey R.radix → Option (List ℕ) → Action R RetainOutcome
  retain_planned x next_snapshot_bytes prepared none = do
    on_index_rollback prepared
    over ← gets (λ c. ltb c.config.max_snapshot_bytes next_snapshot_bytes)
    raise (if over then snapshot_capacity else prefix_capacity)
  retain_planned x next_snapshot_bytes prepared (some evictions) = do
    reads prepare_prefix_id
    reads (check_prefix_refs x.pages)
    evicted ← reads (evicted_bytes evictions 0)
    retained ← reads (λ c.
        ok_or
          (and_then (checked_sub c.stats.retained_snapshot_bytes evicted)
            (λ bytes. checked_add bytes x.snapshot_bytes))
          arithmetic_overflow)
    r ← attempt (commit_evictions evictions)
    evict_or_roll_back prepared r
    publish_entry x prepared retained

  unfoldable pub retain_new : Retained R.Snapshot → Action R RetainOutcome
  unfolding retain_planned
  retain_new x = do
    limit ← gets (λ c. c.config.max_snapshot_bytes)
    lift (reject_if (ltb limit x.snapshot_bytes) snapshot_capacity)
    next_bytes ← reads (λ c.
        ok_or (checked_add c.stats.retained_snapshot_bytes x.snapshot_bytes) arithmetic_overflow)
    count ← reads (λ c. ok_or (checked_add (length c.prefixes) 1) arithmetic_overflow)
    prepared ← on_index_prepare x.tokens
    evictions ← reads (λ c.
        plan_evictions
          (record {
            extra_bytes = x.snapshot_bytes;
            extra_pages = 0;
            byte_limit = c.config.max_managed_bytes;
            target_snapshot_bytes = some next_bytes;
            target_entry_count = some count;
          })
          none c)
    retain_planned x next_bytes prepared evictions

  abbrev pub retain_found : Retained R.Snapshot → Option ℕ → Action R RetainOutcome
  retain_found x none = retain_new x
  retain_found x (some id) = retain_duplicate id

  unfoldable pub retain_prefix : Handle → List ℕ → R.Snapshot → Action R RetainOutcome
  unfolding check_sealed retain_new retain_duplicate
  retain_prefix id tokens snapshot = do
    s ← reads (sequence_record id)
    page_tokens ← gets (λ c. c.config.page_tokens)
    lift (
        reject_if
          (s.position == 0 || not (s.position % page_tokens == 0) || ltb (length tokens) s.position)
          invalid_token_prefix)
    reads (check_sealed page_tokens s.pages)
    existing ← gets (λ c. exact c.index (take s.position tokens) page_tokens)
    retain_found
        (record {
          position = s.position;
          pages = s.pages;
          tokens = take s.position tokens;
          snapshot = snapshot;
          snapshot_bytes = R.retained_bytes snapshot;
        })
        existing
