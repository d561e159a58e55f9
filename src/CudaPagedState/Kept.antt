-- ===== src/CudaPagedState/Kept.antt =====
-- The backend of examples/cuda_paged_state.rs keeps its pages and the published page tables where it
-- fails. A refused publication may have filled the staging vector of its table.
use seqcache.Prelude.{
  ℕ, ◌≡◌, refl, ◌∙◌, List, [], ◌∷◌, map, true, false, ◌⊎◌, Bool-cases, inl, inr, ltb, length, ◌==◌,
  any_of,
}
use seqcache.Error.{ok, err, panic}
use seqcache.Exec.{◌>>◌, ◌>>=◌, reads, raise_if, modify}
use seqcache.Backend.{BackendAppendPage}
use seqcache.Backend.Keeping.{
  Failing, Quiet, Sure, Failing-after, Failing-before, Quiet-Failing, Sure-Failing, reads-Quiet,
  raise_if-Quiet, then-Sure,
}
use seqcache.CudaPagedState.Driver.{Cuda, DriverCall, invalid_geometry}
use seqcache.CudaPagedState.Device.{synchronize}
use seqcache.CudaPagedState.Table.{CudaPageTable, copy_addresses, stage, swap_tables}
use seqcache.CudaPagedState.Pool.{
  CudaPage, CudaPageBackend, CudaStorage, CudaResult, Operation, on_driver, release, validate_pages,
  addresses,
}
use seqcache.CudaPagedState.Backend.{
  expected, release_all, wait, change_table, publish, update_page_table, publish_and_release,
  prepare_append,
}

-- The host's record of a page table, but for the staging vector.
abbrev pub SameTable : CudaPageTable → CudaPageTable → Type 0
SameTable t t' =
    (t'.device_tables ≡ t.device_tables)
    × (t'.published_addresses ≡ t.published_addresses)
    × (t'.active ≡ t.active)
    × (t'.position ≡ t.position)

module _ {C : Cuda} where
  abbrev pub SameTables : CudaStorage C → CudaStorage C → Type 0
  SameTables s s' = (i : ℕ) → SameTable (s.tables i) (s'.tables i)

  -- The same pool and the same tables.
  abbrev pub SamePool : CudaStorage C → CudaStorage C → Type 0
  SamePool s s' = (s'.backend ≡ s.backend) × SameTables s s'

  abbrev pub SamePool-refl : (s : CudaStorage C) → SamePool s s
  SamePool-refl s = (refl, λ i. (refl, refl, refl, refl))

  pub SameTables-trans : (a b c : CudaStorage C) → SameTables a b → SameTables b c → SameTables a c
  SameTables-trans a b c tables tables' i =
      let (d, p, act, pos) = tables i in
      let (d', p', act', pos') = tables' i in (d' ∙ d, p' ∙ p, act' ∙ act, pos' ∙ pos)

  pub SamePool-trans : (a b c : CudaStorage C) → SamePool a b → SamePool b c → SamePool a c
  SamePool-trans a b c (pool, tables) (pool', tables') =
      (pool' ∙ pool, SameTables-trans a b c tables tables')

  driven-Quiet :
      {A : Type 0} (s : CudaStorage C) (x : CudaResult A × C.Driver)
      → Quiet SamePool s (x.0, record s { driver = x.1 })
  driven-Quiet s (ok a, d) = SamePool-refl s
  driven-Quiet s (err e, d) = SamePool-refl s
  driven-Quiet s (panic, d) = tt

  pub on_driver-Quiet :
      {A : Type 0} (call : DriverCall C A) (s : CudaStorage C) → Quiet SamePool s (on_driver call s)
  on_driver-Quiet call s = driven-Quiet s (call s.driver)

  pub after_read :
      {A B : Type 0} (s : CudaStorage C) (r : CudaResult A) (k : A → Operation C B)
      → ((a : A) → (s' : CudaStorage C) → Failing SamePool s' (k a s'))
      → Failing SamePool s (((λ t. (r, t)) >>= k) s)
  after_read s r k h =
      Failing-after SamePool SamePool-trans s k (r, s) (reads-Quiet SamePool s r (SamePool-refl s))
        (λ a s' same. h a s')

  pub after_wait :
      {B : Type 0} (s : CudaStorage C) (k : Operation C B)
      → ((s' : CudaStorage C) → Failing SamePool s' (k s'))
      → Failing SamePool s ((wait >> k) s)
  after_wait s k h =
      Failing-after SamePool SamePool-trans s (λ _. k) (wait s)
        (on_driver-Quiet (synchronize s.device) s) (λ _ s' same. h s')

  staged : (s : CudaStorage C) (as' : List ℕ) → SamePool s (change_table (stage as') s)
  staged s as' = (refl, λ i. one i (Bool-cases (i == s.context)))
    where
      one :
          (i : ℕ)
          → ((i == s.context) ≡ true) ⊎ ((i == s.context) ≡ false)
          → SameTable (s.tables i) ((change_table (stage as') s).tables i)
      one i (inl e) = rw e (refl, refl, refl, refl)
      one i (inr e) = rw e (refl, refl, refl, refl)

  publish-Failing :
      (as' : List ℕ) (position : ℕ) (s : CudaStorage C)
      → Failing SamePool s (publish as' position s)
  unfolding publish
  publish-Failing as' position s =
      let long = ltb (s.tables s.context).staging_addresses.capacity (length as') in
      let copy = on_driver (copy_addresses C (s.tables s.context) as') in
      let swapped = modify (change_table (swap_tables position)) in
      Failing-after SamePool SamePool-trans s
        (λ _. modify (change_table (stage as')) >> (wait >> (copy >> swapped)))
        (raise_if long (invalid_geometry "logical page table exceeds its admitted capacity") s)
        (raise_if-Quiet SamePool s long _ (SamePool-refl s))
        (λ _ s' same.
          Failing-after SamePool SamePool-trans s' (λ _. wait >> (copy >> swapped))
            (modify (change_table (stage as')) s') (staged s' as')
            (λ _ s'' same'. after_wait s'' (copy >> swapped) (λ end.
              Failing-before SamePool SamePool-trans end (λ _. swapped) (copy end)
                (Quiet-Failing SamePool end (copy end)
                  (on_driver-Quiet (copy_addresses C (s.tables s.context) as') end))
                (λ _ _. tt))))

  expected-Sure :
      (s : CudaStorage C) (x : CudaResult (Unit {0}) × CudaPageBackend) → Sure (expected s x)
  unfolding expected
  expected-Sure s (ok _, b) = tt
  expected-Sure s (err e, b) = tt
  expected-Sure s (panic, b) = tt

  release_all-Sure : (pages : List CudaPage) (s : CudaStorage C) → Sure (release_all pages s)
  unfolding release_all
  release_all-Sure [] s = tt
  release_all-Sure (p ∷ ps) s =
      then-Sure (expected s (release p s.backend)) (release_all ps) s
        (expected-Sure s (release p s.backend)) (release_all-Sure ps)

  pub update_page_table-Failing :
      (pages : List CudaPage) (position : ℕ) (s : CudaStorage C)
      → Failing SamePool s (update_page_table pages position s)
  unfolding update_page_table
  update_page_table-Failing pages position s =
      after_read s (validate_pages s.backend pages)
        (λ _. reads (λ t. addresses t.backend pages) >>= λ as'. publish as' position)
        (λ _ s'.
          after_read s' (addresses s'.backend pages) (λ as'. publish as' position)
            (λ as' s''. publish-Failing as' position s''))

  pub publish_and_release-Failing :
      (pages released : List CudaPage) (position : ℕ) (s : CudaStorage C)
      → Failing SamePool s (publish_and_release pages released position s)
  unfolding publish_and_release
  publish_and_release-Failing pages released position s =
      let last = λ (as' : List ℕ). publish as' position >> release_all released in
      let read : Operation C (Unit {0}) =
        reads (λ (t : CudaStorage C). addresses t.backend pages) >>= last in
      after_read s (validate_pages s.backend pages)
        (λ _. reads (λ t. validate_pages t.backend released) >> (wait >> read))
        (λ _ s'.
          after_read s' (validate_pages s'.backend released) (λ _. wait >> read)
            (λ _ s''. after_wait s'' read (λ t.
              after_read t (addresses t.backend pages) last (λ as' end.
                Failing-before SamePool SamePool-trans end (λ _. release_all released)
                  (publish as' position end) (publish-Failing as' position end)
                  (λ _ t'. release_all-Sure released t')))))

  pub prepare_append-Failing :
      (pages : List (BackendAppendPage CudaPage)) (s : CudaStorage C)
      → Failing SamePool s (prepare_append pages s)
  unfolding prepare_append
  prepare_append-Failing pages s =
      let past = any_of (λ (p : BackendAppendPage CudaPage). _) pages in
      after_read s (validate_pages s.backend (map (λ p. p.page) pages)) (λ _. raise_if past _)
        (λ _ s'.
          Quiet-Failing SamePool s' (raise_if past _ s')
            (raise_if-Quiet SamePool s' past _ (SamePool-refl s')))

  pub retired-Failing :
      (pages : List CudaPage) (s : CudaStorage C)
      → Failing SamePool s
          ((reads (λ t. validate_pages t.backend pages) >> (wait >> release_all pages)) s)
  retired-Failing pages s =
      after_read s (validate_pages s.backend pages) (λ _. wait >> release_all pages)
        (λ _ s'.
          after_wait s' (release_all pages)
            (λ end. Sure-Failing SamePool end (release_all pages end) (release_all-Sure pages end)))
