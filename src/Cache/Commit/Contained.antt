-- ===== src/Cache/Commit/Contained.antt =====
-- A refusal of the backend leaves an append pending and the cache as it was.
use seqcache.Prelude.{ℕ, ◌≡◌, refl, true, false, List}
use seqcache.Exec.{reads}
use seqcache.Backend.{Runtime}
use seqcache.Backend.Contract.{KeepsOnError}
use seqcache.Cache.Records.{SequenceCache, AppendReservation}
use seqcache.Cache.Contained.{
  failed_in_backend, ledger, bind-internal, keeps, IsContained, IsContained-bind,
}
use seqcache.Cache.Pages.{physical_refs_from}
use seqcache.Cache.Partial.{CommitPlan, plan_commit}
use seqcache.Cache.Commit.{commit_refs, finish_commit, commit_append}
use seqcache.Cache.Commit.Settled.{end_append, end_append-IsContained}
use seqcache.Cache.Commit.Internal.{
  physical_refs_from-internal, finish_commit-IsInternal, finish_abort-IsInternal,
}
use seqcache.Cache.Abort.{AbortPlan, plan_abort, abort_refs, finish_abort, abort_append}

module _ {R : Runtime} where
  commit_refs-internal :
      (plan : CommitPlan) (rows : ℕ) (c : SequenceCache R)
      → failed_in_backend (commit_refs plan rows c) ≡ false
  commit_refs-internal plan rows c =
      bind-internal (physical_refs_from plan.committed_pages c) _
        (physical_refs_from-internal plan.committed_pages c)
        (λ committed.
          bind-internal (physical_refs_from plan.sealed_ids c) _
            (physical_refs_from-internal plan.sealed_ids c)
            (λ sealed.
              bind-internal (physical_refs_from plan.released_pages c) _
                (physical_refs_from-internal plan.released_pages c) (λ released. refl)))

  abort_refs-internal :
      (plan : AbortPlan) (c : SequenceCache R) → failed_in_backend (abort_refs plan c) ≡ false
  abort_refs-internal plan c =
      bind-internal (physical_refs_from plan.old_pages c) _
        (physical_refs_from-internal plan.old_pages c)
        (λ restored.
          bind-internal (physical_refs_from plan.new_pages c) _
            (physical_refs_from-internal plan.new_pages c) (λ released. refl))

  commit_append-IsContained :
      (contract : KeepsOnError R.storage) (r : AppendReservation) (rows : ℕ)
      → IsContained {R = R} (commit_append r rows)
  unfolding commit_append
  commit_append-IsContained contract r rows =
      let ending = λ (plan : CommitPlan).
        end_append {R = R} r.sequence (commit_refs plan rows)
          (λ commit t b. R.commit_append t commit b) (finish_commit r.sequence plan) in
      IsContained-bind (reads (plan_commit r rows)) ending (keeps (λ c. refl)) (λ plan.
        end_append-IsContained r.sequence (λ commit t b. R.commit_append t commit b)
          (finish_commit r.sequence plan) (finish_commit-IsInternal r.sequence plan)
          (commit_refs plan rows) (commit_refs-internal plan rows)
          (λ commit t b. contract.commit_append t commit b))

  abort_append-IsContained :
      (contract : KeepsOnError R.storage) (r : AppendReservation)
      → IsContained {R = R} (abort_append r)
  unfolding abort_append
  abort_append-IsContained contract r =
      let call =
        λ (plan : AbortPlan) (pages : List R.Page × List R.Page) (t : R.AppendTransaction)
            (b : R.Storage).
          R.abort_append t pages.0 pages.1 plan.old_position b in
      let ending = λ (plan : AbortPlan).
        end_append {R = R} r.sequence (abort_refs plan) (call plan)
          (finish_abort r.sequence plan) in
      IsContained-bind (reads (plan_abort r)) ending (keeps (λ c. refl)) (λ plan.
        end_append-IsContained r.sequence (call plan) (finish_abort r.sequence plan)
          (finish_abort-IsInternal r.sequence plan) (abort_refs plan) (abort_refs-internal plan)
          (λ pages t b. contract.abort_append t pages.0 pages.1 plan.old_position b))

  -- With a backend whose failed operations change nothing, a `commit_append` that fails in the backend
  -- leaves every record, every total and the index: the append is pending still.
  pub commit_append_refused :
      (contract : KeepsOnError R.storage) (r : AppendReservation) (rows : ℕ) (c : SequenceCache R)
      → failed_in_backend (commit_append r rows c).0 ≡ true
      → ledger (commit_append r rows c).1 ≡ ledger c
  commit_append_refused contract r rows = (commit_append-IsContained contract r rows).contained

  -- With a backend whose failed operations change nothing, an `abort_append` that fails in the backend
  -- leaves every record, every total and the index: the append is pending still.
  pub abort_append_refused :
      (contract : KeepsOnError R.storage) (r : AppendReservation) (c : SequenceCache R)
      → failed_in_backend (abort_append r c).0 ≡ true
      → ledger (abort_append r c).1 ≡ ledger c
  abort_append_refused contract r = (abort_append-IsContained contract r).contained
