-- ===== src/Cache/Commit/Internal.antt =====
-- The parts of `commit_append` and `abort_append` that do not call the backend.
use seqcache.Prelude.{
  ℕ, ◌++◌, length, ◌≡◌, refl, false, List, [], ◌∷◌, Option-cases, inl, inr, arith,
}
use seqcache.Word.{isize_capped}
use seqcache.Error.{Result, ok, err, ok_or, stale_page, stale_sequence}
use seqcache.Error
use seqcache.Exec.{reads, modify, each, ◌>>=◌, ◌>>◌}
use seqcache.Arena.{Handle, resolve}
use seqcache.Backend.{Runtime}
use seqcache.Cache.Records.{SequenceCache, SequenceRecord, AppendSegment, pages_sealed}
use seqcache.Cache.Monad.{Action, counted}
use seqcache.Cache.Contained.{
  failed_in_backend, ok_or-internal, bind-internal, internal, IsInternal, IsInternal-bind,
}
use seqcache.Cache.Append.{set_reserved}
use seqcache.Cache.Append.Recorded.{refresh_stats-IsInternal}
use seqcache.Cache.Refresh.{refresh_stats}
use seqcache.Cache.Pages.{page_record, page, physical_refs_from, remove_page}
use seqcache.Cache.Sequences.{sequence_record, set_sequence}
use seqcache.Cache.Partial.{CommitPlan}
use seqcache.Cache.Commit.{apply_segment, discard_page, finish_commit}
use seqcache.Cache.Abort.{AbortPlan, finish_abort}

module _ {R : Runtime} where
  page-internal : (id : Handle) (c : SequenceCache R) → failed_in_backend (page id c) ≡ false
  unfolding page page_record
  page-internal id c =
      bind-internal (ok_or (resolve c.pages id) stale_page) (λ p. ok_or p.physical stale_page)
        (ok_or-internal (resolve c.pages id) stale_page refl)
        (λ p. ok_or-internal p.physical stale_page refl)

  pub physical_refs_from-internal :
      (ids : List Handle) (c : SequenceCache R)
      → failed_in_backend (physical_refs_from ids c) ≡ false
  unfolding physical_refs_from
  physical_refs_from-internal [] c = refl
  physical_refs_from-internal (id ∷ ids) c =
      bind-internal (page id c) (λ p. Error.◌>>=◌ (physical_refs_from ids c) (λ ps. ok (p ∷ ps)))
        (page-internal id c)
        (λ p.
          bind-internal (physical_refs_from ids c) (λ ps. ok (p ∷ ps))
            (physical_refs_from-internal ids c) (λ ps. refl))

  pub each-IsInternal :
      {A : Type 0} (body : A → Action R (Unit {0})) (l : List A)
      → ((a : A) → IsInternal (body a))
      → IsInternal (each body l)
  each-IsInternal body [] h = internal (λ c. refl)
  each-IsInternal body (a ∷ as') h =
      IsInternal-bind (body a) (λ _. each body as') (h a) (λ _. each-IsInternal body as' h)

  apply_segment-IsInternal :
      (page_tokens : ℕ) (s : AppendSegment) → IsInternal {R = R} (apply_segment page_tokens s)
  unfolding apply_segment page_record
  apply_segment-IsInternal page_tokens s = internal (λ c. ground arith)

  pub remove_page-IsInternal : (id : Handle) → IsInternal {R = R} (remove_page id)
  unfolding remove_page
  remove_page-IsInternal id = internal (λ c. ground arith)

  discard_page-IsInternal : (id : Handle) → IsInternal {R = R} (discard_page id)
  unfolding discard_page page_record
  discard_page-IsInternal id = internal (λ c. elim (Option-cases (resolve c.pages id)) [
    | inl stale ↦ rw stale refl
    | inr (p, live) ↦ elim (Option-cases p.physical) [
      | inl gone ↦ rw (live, gone) refl
      | inr (physical, at) ↦ rw (live, at) ((remove_page-IsInternal id).inside _)
    ]
  ])

  -- A read of the sequence, behind which nothing but the totals can fail.
  closing-IsInternal :
      (id : Handle)
      (change : SequenceRecord R.AppendTransaction → SequenceCache R → SequenceCache R)
      → IsInternal {R = R} (reads (sequence_record id) >>= λ s. modify (change s) >> refresh_stats)
  unfolding sequence_record
  closing-IsInternal id change = internal (λ c. elim (Option-cases (resolve c.sequences id)) [
    | inl stale ↦ rw stale refl
    | inr (s, live) ↦ rw live (refresh_stats-IsInternal.inside (change s c))
  ])

  pub finish_commit-IsInternal :
      (id : Handle) (plan : CommitPlan) → IsInternal {R = R} (finish_commit id plan)
  unfolding finish_commit
  finish_commit-IsInternal id plan = internal (λ c.
      let change : SequenceRecord R.AppendTransaction → SequenceCache R → SequenceCache R = λ s d.
        counted pages_sealed (isize_capped (length plan.sealed_ids)) (
          set_reserved plan.next_reserved_pages (
            set_sequence id
              (record s {
                pages = s.pages ++ plan.kept_new_pages;
                reserved_pages = plan.next_sequence_reserved_pages;
                position = plan.new_position;
              })
              d)) in
      let closing : Action R (Unit {0}) =
        reads (sequence_record id) >>= (λ s. modify (change s) >> refresh_stats) in
      (IsInternal-bind (each (apply_segment c.config.page_tokens) plan.segments)
          (λ _. each discard_page plan.released_pages >> closing)
          (each-IsInternal (apply_segment c.config.page_tokens) plan.segments
            (apply_segment-IsInternal c.config.page_tokens))
          (λ _.
            IsInternal-bind (each discard_page plan.released_pages) (λ _. closing)
              (each-IsInternal discard_page plan.released_pages discard_page-IsInternal)
              (λ _. closing-IsInternal id change))).inside
        c)

  pub finish_abort-IsInternal :
      (id : Handle) (plan : AbortPlan) → IsInternal {R = R} (finish_abort id plan)
  unfolding finish_abort
  finish_abort-IsInternal id plan =
      let change : SequenceRecord R.AppendTransaction → SequenceCache R → SequenceCache R = λ s d.
        set_reserved plan.next_reserved_pages
          (set_sequence id (record s { reserved_pages = plan.next_sequence_reserved_pages }) d) in
      let closing : Action R (Unit {0}) =
        reads (sequence_record id) >>= (λ s. modify (change s) >> refresh_stats) in
      IsInternal-bind (each discard_page plan.new_pages) (λ _. closing)
        (each-IsInternal discard_page plan.new_pages discard_page-IsInternal)
        (λ _. closing-IsInternal id change)
