-- ===== src/Cache/Branch.antt =====
-- src/manager.rs: `branch` and `finish`.
use seqcache.Prelude.{
  ℕ, ◌%◌, ◌&&◌, false, Option, none, some, List, [], ◌∷◌, ◌++◌, ◌==◌, if◌then◌else◌, is_some,
}
use seqcache.Error.{CacheError, Result, ok, err, panic, append_pending, reject_if}
use seqcache.Error
use seqcache.Exec.{pure, lift, reads, gets, modify, each, ◌>>=◌, ◌>>◌}
use seqcache.Arena.{Handle, handle_eq}
use seqcache.Config.{AdmissionRequest}
use seqcache.Backend.{Runtime, PageAllocation}
use seqcache.Cache.Records.{
  AdmissionOutcome, admitted, SequenceCache, admission_successes, pages_recycled, pages_allocated,
  pages_copied_on_write,
}
use seqcache.Cache.Monad.{Outcome, Action, inc, on_backend, or_backend_error, backend_error}
use seqcache.Cache.Refresh.{refresh_stats}
use seqcache.Cache.Pages.{
  page, page_record, physical_refs_from, increment_active_ref, decrement_active_ref,
  prepare_page_slot, peek_page_id, insert_page,
}
use seqcache.Cache.Sequences.{
  sequence_record, prepare_sequence_slot, insert_sequence, prepare_remove_sequence, remove_sequence,
}
use seqcache.Cache.Retire.{retire_page_ids}
use seqcache.Cache.Plan.{plan_evictions}
use seqcache.Cache.Evict.{commit_evictions}
use seqcache.Cache.Admit.{check_active_refs, new_sequence, refuse}
use seqcache.Cache.BranchPlan.{BranchPlan, plan_branch}

abbrev pub copied_page : {P : Type 0} → Option (PageAllocation P) → List P
copied_page none = []
copied_page (some a) = a.page ∷ []

module _ {R : Runtime} where
  -- The slot checks for the copied page; its handle is used by a debug assertion only.
  abbrev pub check_slots : Option Handle → SequenceCache R → Outcome R (Unit {0})
  check_slots none c = ok tt
  check_slots (some tail) c = prepare_page_slot c

  abbrev pub peek_copied : Option Handle → SequenceCache R → Outcome R (Unit {0})
  peek_copied none c = ok tt
  peek_copied (some tail) c = Error.◌>>=◌ (peek_page_id c) (λ _. ok tt)

  abbrev pub copy_tail : ℕ → Option Handle → Action R (Option (PageAllocation R.Page))
  copy_tail valid_tokens none = pure none
  copy_tail valid_tokens (some tail) = do
    source ← reads (page tail)
    r ← on_backend (R.copy_partial_page source valid_tokens)
    a ← or_backend_error r
    pure (some a)

  -- A page table that is refused gives the copy back.
  abbrev pub or_uncopied :
      Option (PageAllocation R.Page) → Result R.BackendError (Unit {0}) → Action R (Unit {0})
  or_uncopied copied (ok _) = pure tt
  or_uncopied none (err e) = backend_error e
  or_uncopied (some a) (err e) =
      modify (λ c. record c { backend = R.rollback_page a.page c.backend }) >> backend_error e
  or_uncopied copied panic = lift panic

  abbrev pub insert_copied : ℕ → Option (PageAllocation R.Page) → Action R (List Handle)
  insert_copied valid_tokens none = pure []
  insert_copied valid_tokens (some a) = do
    id ← insert_page (record {
      physical = some a.page;
      active_refs = 1;
      prefix_refs = 0;
      valid_tokens = valid_tokens;
      sealed = false;
    })
    pure (id ∷ [])

  abbrev pub count_copied : Option (PageAllocation R.Page) → Action R (Unit {0})
  count_copied none = pure tt
  count_copied (some a) =
      inc (if a.recycled then pages_recycled else pages_allocated) >> inc pages_copied_on_write

  unfoldable pub branch_planned :
      BranchPlan → AdmissionRequest → Option (List ℕ) → Action R AdmissionOutcome
  branch_planned plan request none = refuse
  branch_planned plan request (some evictions) = do
    valid_tokens ← gets (λ c. plan.position % c.config.page_tokens)
    reads prepare_sequence_slot
    reads (check_slots plan.source_tail)
    reads (check_active_refs plan.shared_pages)
    reads (peek_copied plan.source_tail)
    copied ← copy_tail valid_tokens plan.source_tail
    shared ← reads (physical_refs_from plan.shared_pages)
    published ← on_backend (R.update_page_table (shared ++ copied_page copied) plan.position)
    or_uncopied copied published
    commit_evictions evictions
    each increment_active_ref plan.shared_pages
    tail ← insert_copied valid_tokens copied
    id ←
        insert_sequence
          (new_sequence (plan.shared_pages ++ tail) plan.position plan.reserved_pages request)
    count_copied copied
    inc admission_successes
    refresh_stats
    pure (admitted id)

  unfoldable pub branch : Handle → AdmissionRequest → Action R AdmissionOutcome
  unfolding branch_planned
  branch source request = do
    plan ← reads (plan_branch source request)
    evictions ← reads (plan_evictions plan.request none)
    branch_planned plan request evictions

  -- The pages that only this sequence refers to.
  unfoldable pub unshared : List Handle → SequenceCache R → Outcome R (List Handle)
  unshared [] c = ok []
  unshared (id ∷ ids) c =
      let rest = unshared ids c in
      Error.◌>>=◌ (page_record id c) (λ p.
        Error.◌>>=◌ rest
          (λ others. ok (if p.active_refs == 1 && p.prefix_refs == 0 then id ∷ others else others)))

  -- The loop over the pages beside the iterator over the retired ones.
  unfoldable pub release_shared : List Handle → List Handle → Action R (Unit {0})
  release_shared [] retired = pure tt
  release_shared (id ∷ ids) [] = decrement_active_ref id >> release_shared ids []
  release_shared (id ∷ ids) (r ∷ retired) =
      let skip = release_shared ids retired in
      let release = decrement_active_ref id >> release_shared ids (r ∷ retired) in
      if handle_eq r id then skip else release

  unfoldable pub finish : Handle → Action R (Unit {0})
  unfolding unshared release_shared
  finish id = do
    s ← reads (sequence_record id)
    lift (reject_if (is_some s.pending) append_pending)
    reads (prepare_remove_sequence id)
    retired ← reads (unshared s.pages)
    retire_page_ids retired
    release_shared s.pages retired
    remove_sequence id
    refresh_stats
