-- ===== src/Cache/Retire/Refused.antt =====
-- `retire_page_ids` when the backend refuses the batch.
use seqcache.Prelude.{
  ℕ, ◌≡◌, refl, sym, ◌∙◌, true, false, List, [], ◌∷◌, length, ltb, Option-cases, Bool-cases, inl,
  inr, arith,
}
use seqcache.Word.{checked_add, checked_mul, checked_sub, isize_capped}
use seqcache.Error.{Result, ok, err, panic, ok_or, arithmetic_overflow, invariant}
use seqcache.Exec.{continue, reads, modify, each, ◌>>=◌, ◌>>◌}
use seqcache.Arena.{Handle}
use seqcache.Backend.{Runtime, RetireError, RetireOutcome}
use seqcache.Backend.Contract.{ComesBack, KeepsOnError}
use seqcache.Cache.Records.{SequenceCache, pages_retired}
use seqcache.Cache.Monad.{Outcome, Action, add}
use seqcache.Cache.Contained.{
  failed_in_backend, ledger, keeps, internal, IsInternal, IsContained, IsInternal-bind,
  IsContained-bind,
}
use seqcache.Cache.Pages.{page_record, set_reclaimable, remove_page}
use seqcache.Cache.Commit.Internal.{each-IsInternal, remove_page-IsInternal}
use seqcache.Cache.Retire.{
  count_reclaimable, take_physical, take_all, give_back, retired_or_back, call_retire, hand_over,
  settle_retirement, retire_batch, retire_page_ids,
}
use seqcache.Cache.Retire.Returned.{give_back-take_all}

module _ {R : Runtime} where
  take_physical-IsInternal : (id : Handle) → IsInternal {R = R} (take_physical id)
  unfolding take_physical page_record
  take_physical-IsInternal id = internal (λ c. ground arith)

  take_all-IsInternal : (ids : List Handle) → IsInternal {R = R} (take_all ids)
  unfolding take_all
  take_all-IsInternal [] = internal (λ c. refl)
  take_all-IsInternal (id ∷ ids) =
      let more : R.Page → Action R (List R.Page) = λ p. take_all ids >>= λ ps c. (ok (p ∷ ps), c) in
      IsInternal-bind (take_physical id) more (take_physical-IsInternal id) (λ p.
        IsInternal-bind (take_all ids) (λ ps c. (ok (p ∷ ps), c)) (take_all-IsInternal ids)
          (λ ps. internal (λ c. refl)))

  settle_retirement-IsInternal :
      (ids : List Handle) (reclaimable deferred : ℕ)
      → IsInternal {R = R} (settle_retirement ids reclaimable deferred)
  unfolding settle_retirement
  settle_retirement-IsInternal ids reclaimable deferred = internal (λ c.
      let closing : ℕ → Action R (Unit {0}) = λ deferred_pages.
        modify (λ d. record d { deferred_pages = deferred_pages })
        >> (modify (set_reclaimable reclaimable)
            >> add pages_retired (isize_capped (length ids))) in
      elim (Bool-cases (ltb (length ids) deferred)) [
        | inl many ↦ rw many refl
        | inr fits ↦ elim (Option-cases (checked_add c.deferred_pages deferred)) [
          | inl over ↦ rw (fits, over) refl
          | inr (n, sum) ↦
              rw (fits, sum)
                ((IsInternal-bind (each remove_page ids) (λ _. closing n)
                    (each-IsInternal remove_page ids remove_page-IsInternal)
                    (λ _. internal (λ d. refl))).inside
                  c)
        ]
      ])

  -- The backend's answer to the pages of a batch, and what follows it.
  answered :
      (ids : List Handle) (reclaimable : ℕ) (c c1 : SequenceCache R) (ps : List R.Page)
      (y : Result (RetireError R.BackendError R.Page) RetireOutcome × R.Storage)
      → take_all ids c ≡ (ok ps, c1)
      → ComesBack ps c1.backend y
      → failed_in_backend
          ((retired_or_back ids y.0 >>= settle_retirement ids reclaimable)
            (record c1 { backend = y.1 })).0
        ≡ true
      → ledger
          ((retired_or_back ids y.0 >>= settle_retirement ids reclaimable)
            (record c1 { backend = y.1 })).1
        ≡ ledger c
  unfolding retired_or_back
  answered ids reclaimable c c1 ps (ok outcome, b) taken back h =
      let inside =
        (settle_retirement-IsInternal ids reclaimable outcome.deferred_pages).inside
          (record c1 { backend = b }) in
      let clash : true ≡ false = sym h ∙ inside in absurd (cc clash)
  answered ids reclaimable c c1 ps (err f, b) taken (stored, pages) h =
      let given : give_back ids f.pages (record c1 { backend = b }) ≡ (ok tt, c) =
        rw (stored, pages) (give_back-take_all ids c c1 ps taken) in
      rw given refl
  answered ids reclaimable c c1 ps (panic, b) taken back h = absurd (cc h)

  -- The rest of the batch, on what `take_all` has left.
  abbrev after_take :
      List Handle
      → ℕ
      → Outcome R (List R.Page) × SequenceCache R
      → Outcome R (Unit {0}) × SequenceCache R
  after_take ids reclaimable (r, c1) =
      let (d, c2) = continue r (λ physical. call_retire physical >>= retired_or_back ids) c1 in
      continue d (settle_retirement ids reclaimable) c2

  taken-contained :
      (contract : KeepsOnError R.storage) (ids : List Handle) (reclaimable : ℕ)
      (c : SequenceCache R) (x : Outcome R (List R.Page) × SequenceCache R)
      → take_all ids c ≡ x
      → failed_in_backend x.0 ≡ false
      → failed_in_backend (after_take ids reclaimable x).0 ≡ true
      → ledger (after_take ids reclaimable x).1 ≡ ledger c
  taken-contained contract ids reclaimable c (ok ps, c1) taken fine h =
      answered ids reclaimable c c1 ps (R.retire_pages ps c1.backend) taken
        (contract.retire_pages ps c1.backend) h
  taken-contained contract ids reclaimable c (err e, c1) taken fine h = absurd (cc (h, fine))
  taken-contained contract ids reclaimable c (panic, c1) taken fine h = absurd (cc h)

  handed_over-IsContained :
      (contract : KeepsOnError R.storage) (ids : List Handle) (reclaimable : ℕ)
      → IsContained {R = R} (hand_over ids >>= settle_retirement ids reclaimable)
  unfolding hand_over
  handed_over-IsContained contract ids reclaimable = record {
    contained = λ c.
        taken-contained contract ids reclaimable c (take_all ids c) refl
          ((take_all-IsInternal ids).inside c);
  }

  retire_page_ids-IsContained :
      (contract : KeepsOnError R.storage) (ids : List Handle)
      → IsContained {R = R} (retire_page_ids ids)
  unfolding retire_page_ids retire_batch
  retire_page_ids-IsContained contract [] = record { contained = λ c h. refl }
  retire_page_ids-IsContained contract (id ∷ ids) =
      let all = id ∷ ids in
      let finish : ℕ → Action R (Unit {0}) =
        λ reclaimable. hand_over all >>= settle_retirement all reclaimable in
      let left : ℕ → Action R ℕ = λ bytes. reads (λ c.
        ok_or (checked_sub c.stats.reclaimable_prefix_only_bytes bytes)
          (invariant "retired pages exceed reclaimable accounting")) in
      let weighed : ℕ → Action R ℕ =
        λ n. reads (λ c. ok_or (checked_mul n c.page_bytes) arithmetic_overflow) in
      IsContained-bind (reads (count_reclaimable all 0))
        (λ n. weighed n >>= λ bytes. left bytes >>= finish) (keeps (λ c. refl))
        (λ n.
          IsContained-bind (weighed n) (λ bytes. left bytes >>= finish) (keeps (λ c. refl))
            (λ bytes.
              IsContained-bind (left bytes) finish (keeps (λ c. refl))
                (handed_over-IsContained contract all)))

  -- With a backend whose failed operations change nothing, a `retire_page_ids` that fails in the backend
  -- gives every page back to its record, and leaves every record, every total and the index.
  pub retire_page_ids_refused :
      (contract : KeepsOnError R.storage) (ids : List Handle) (c : SequenceCache R)
      → failed_in_backend (retire_page_ids ids c).0 ≡ true
      → ledger (retire_page_ids ids c).1 ≡ ledger c
  retire_page_ids_refused contract ids = (retire_page_ids-IsContained contract ids).contained
