-- ===== src/Cache/Admit.antt =====
-- src/manager.rs: `admission_bytes`, `admission_limit` and `admit`.
use seqcache.Prelude.{
  ℕ, Bool, ◌||◌, not, Option, none, some, List, [], ◌∷◌, length, ltb, ◌==◌, if◌then◌else◌, get_key,
}
use seqcache.Word.{checked_add, checked_sub}
use seqcache.Error.{
  Result, ok, err, panic, ok_or, arithmetic_overflow, invariant, invalid_position, stale_prefix,
  reject_if,
}
use seqcache.Error
use seqcache.Exec.{pure, lift, reads, gets, each, ◌>>=◌, ◌>>◌}
use seqcache.Arena.{Handle}
use seqcache.Config.{AdmissionRequest, div_ceil, request_bytes, request_limit}
use seqcache.Backend.{Runtime}
use seqcache.Cache.Records.{
  SequenceRecord, PrefixMatch, AdmissionOutcome, admitted, would_block, SequenceCache,
  admission_would_block, admission_successes,
}
use seqcache.Cache.Monad.{Outcome, Action, inc, on_backend, or_backend_error}
use seqcache.Cache.Refresh.{refresh_stats}
use seqcache.Cache.Pages.{page_record, physical_refs_from, increment_active_ref}
use seqcache.Cache.Sequences.{prepare_sequence_slot, insert_sequence}
use seqcache.Cache.Plan.{plan_evictions}
use seqcache.Cache.Evict.{prefix_entry, commit_evictions}
use seqcache.Cache.Lookup.{reclaim_deferred}

-- The prefix that an admission starts from.
pub record Shared : Type 0 where
  pub prefix_id : Option ℕ
  pub position : ℕ
  pub pages : List Handle

-- A sequence that has no pending append.
abbrev pub new_sequence : {T : Type 0} → List Handle → ℕ → ℕ → AdmissionRequest → SequenceRecord T
new_sequence pages position reserved_pages request = record {
  pages = pages;
  position = position;
  max_position = request.max_position;
  reserved_pages = reserved_pages;
  private_state_bytes = request.private_state_bytes;
  page_table_bytes = request.page_table_bytes;
  pending = none;
}

module _ {R : Runtime} where
  abbrev pub admission_bytes : ℕ → AdmissionRequest → SequenceCache R → Outcome R ℕ
  admission_bytes pages request c = request_bytes c.page_bytes pages request

  abbrev pub admission_limit : Bool → SequenceCache R → Outcome R ℕ
  admission_limit allow_emergency c = request_limit c.config allow_emergency

  unfoldable pub shared_prefix : Option PrefixMatch → SequenceCache R → Outcome R Shared
  shared_prefix none c = ok (record { prefix_id = none; position = 0; pages = [] })
  shared_prefix (some m) c = Error.◌>>=◌ (prefix_entry m.entry c) (λ e.
      if not (e.position == m.position) || not (length e.pages == m.page_count)
      then err stale_prefix
      else ok (record { prefix_id = some m.entry; position = e.position; pages = e.pages }))

  -- `active_refs.checked_add(1)` of each page, before anything is changed.
  unfoldable pub check_active_refs : List Handle → SequenceCache R → Outcome R (Unit {0})
  check_active_refs [] c = ok tt
  check_active_refs (id ∷ ids) c = Error.◌>>=◌ (page_record id c) (λ p.
      Error.◌>>=◌ (ok_or (checked_add p.active_refs 1) arithmetic_overflow)
        (λ _. check_active_refs ids c))

  -- `prefix_id.map(|id| &self.prefixes[&id].snapshot)`
  abbrev pub snapshot_of : Option ℕ → SequenceCache R → Outcome R (Option R.Snapshot)
  snapshot_of none c = ok none
  snapshot_of (some id) c =
      Error.◌>>=◌ (Error.expect (get_key id c.prefixes)) (λ e. ok (some e.snapshot))

  abbrev pub refuse : Action R AdmissionOutcome
  refuse = inc admission_would_block >> pure would_block

  -- The rest of `admit`, once a plan of evictions is found.
  unfoldable pub admit_planned :
      Shared
      → AdmissionRequest
      → ℕ
      → (Option R.Snapshot → ℕ → Result R.BackendError (Unit {0}))
      → Option (List ℕ)
      → Action R AdmissionOutcome
  admit_planned shared request reserved_pages restore none = refuse
  admit_planned shared request reserved_pages restore (some evictions) = do
    reads prepare_sequence_slot
    reads (check_active_refs shared.pages)
    snapshot ← reads (snapshot_of shared.prefix_id)
    or_backend_error (restore snapshot shared.position)
    table ← reads (physical_refs_from shared.pages)
    published ← on_backend (R.update_page_table table shared.position)
    or_backend_error published
    commit_evictions evictions
    each increment_active_ref shared.pages
    id ← insert_sequence (new_sequence shared.pages shared.position reserved_pages request)
    inc admission_successes
    refresh_stats
    pure (admitted id)

  -- `restore` rebuilds the runtime's own state from the snapshot; it does not reach the cache.
  unfoldable pub admit :
      Option PrefixMatch
      → AdmissionRequest
      → (Option R.Snapshot → ℕ → Result R.BackendError (Unit {0}))
      → Action R AdmissionOutcome
  unfolding shared_prefix admit_planned
  admit prefix request restore = do
    _ ← reclaim_deferred
    shared ← reads (shared_prefix prefix)
    lift (reject_if (ltb request.max_position shared.position) invalid_position)
    page_tokens ← gets (λ c. c.config.page_tokens)
    total_pages ← lift (div_ceil request.max_position page_tokens)
    reserved ← lift (
        ok_or (checked_sub total_pages (length shared.pages))
          (invariant "prefix exceeds maximum position"))
    extra ← reads (admission_bytes reserved request)
    limit ← reads (admission_limit request.allow_emergency)
    evictions ← reads (
        plan_evictions
          (record {
            extra_bytes = extra;
            extra_pages = reserved;
            byte_limit = limit;
            target_snapshot_bytes = none;
            target_entry_count = none;
          })
          shared.prefix_id)
    admit_planned shared request reserved restore evictions
