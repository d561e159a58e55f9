-- ===== src/CpuPagedKv/Atomic.antt =====
-- The backend of examples/cpu_paged_kv.rs meets the contract of `PageBackend` on failed operations: all but a partial-page copy.
use seqcache.Prelude.{
  ℕ, refl, inl, inr, List, [], ◌∷◌, map, any_of, ltb, ◌+◌, if◌then◌else◌, Bool-cases, Option-cases,
}
use seqcache.Word.{wrapped}
use seqcache.Error.{ok, err, panic, Result-cases, ◌>>◌}
use seqcache.Backend.{BackendAppendPage}
use seqcache.Backend.Contract.{Unchanged, StillOpen, ComesBack, KeepsOnError}
use seqcache.CpuPagedKv.Floats.{Floats}
use seqcache.CpuPagedKv.Page.{CpuPage, page_tokens}
use seqcache.CpuPagedKv.Pool.{
  CpuKvBackend, CpuResult, invalid_page_table, validate_pages, allocate, release,
}
use seqcache.CpuPagedKv.Backend.{
  CpuStorage, if_valid, released_in, retired_in, find_stale, release_all, publish_in_context,
  allocate_page, prepare_append, publish_and_release, update_page_table, retire_pages, cpu_backend,
}

module _ {F : Type 0} where
  -- A batch of releases may panic, but it does not fail.
  release_all-Unchanged :
      (pages : List CpuPage) (b : CpuKvBackend F) (s s' : CpuStorage F)
      → Unchanged s (released_in s' (release_all pages b))
  unfolding release_all
  release_all-Unchanged [] b s s' = tt
  release_all-Unchanged (p ∷ ps) b s s' = elim (Result-cases (release p b)) [
    | inl (b', fine) ↦ rw (fine, release_all) (release_all-Unchanged ps b' s s')
    | inr (inl (e, bad)) ↦ rw (bad, release_all) tt
    | inr (inr stuck) ↦ rw (stuck, release_all) tt
  ]

  if_valid-Unchanged :
      (valid : CpuResult (Unit {0})) (run : CpuResult (Unit {0}) × CpuStorage F) (s : CpuStorage F)
      → Unchanged s run
      → Unchanged s (if_valid valid run s)
  if_valid-Unchanged (ok _) run s h = h
  if_valid-Unchanged (err e) run s h = refl
  if_valid-Unchanged panic run s h = tt

  StillOpen-Unchanged :
      (t : Unit {0}) (s : CpuStorage F) (x : CpuResult (Unit {0}) × CpuStorage F)
      → Unchanged s x
      → StillOpen t s (x.0, t, x.1)
  StillOpen-Unchanged t s (ok _, s') h = tt
  StillOpen-Unchanged t s (err e, s') h = (refl, h)
  StillOpen-Unchanged t s (panic, s') h = tt

  publish_and_release-Unchanged :
      (pages released : List CpuPage) (position : ℕ) (s : CpuStorage F)
      → Unchanged s (publish_and_release pages released position s)
  unfolding publish_and_release
  publish_and_release-Unchanged pages released position s =
      let s' = publish_in_context pages position s in
      if_valid-Unchanged (validate_pages pages s.pool >> validate_pages released s.pool)
        (released_in s' (release_all released s'.pool)) s
        (release_all-Unchanged released s'.pool s s')

  retired_in-ComesBack :
      (pages : List CpuPage) (s : CpuStorage F) (r : CpuResult (CpuKvBackend F))
      → ComesBack pages s (retired_in s r)
  retired_in-ComesBack pages s (ok b) = tt
  retired_in-ComesBack pages s (err e) = tt
  retired_in-ComesBack pages s panic = tt

  retire_pages-ComesBack :
      (pages : List CpuPage) (s : CpuStorage F) → ComesBack pages s (retire_pages pages s)
  unfolding retire_pages
  retire_pages-ComesBack pages s = elim (Option-cases (find_stale pages s.pool)) [
    | inl live ↦ rw (live, retire_pages) (retired_in-ComesBack pages s (release_all pages s.pool))
    | inr (p, stale) ↦ rw (stale, retire_pages) (refl, refl)
  ]

  prepare_append-Unchanged :
      (pages : List (BackendAppendPage CpuPage)) (s : CpuStorage F)
      → Unchanged s (prepare_append pages s)
  unfolding prepare_append
  prepare_append-Unchanged pages s =
      let past =
        any_of
          (λ (p : BackendAppendPage CpuPage). ltb page_tokens (wrapped (p.page_offset + p.rows)))
          pages in
      if_valid-Unchanged (validate_pages (map (λ p. p.page) pages) s.pool)
        (if past then (err invalid_page_table, s) else (ok tt, s)) s
        (elim (Bool-cases past) [ inl e ↦ rw e refl | inr e ↦ rw e tt ])

module _ (Fl : Floats) where
  allocate_page-Unchanged : (s : CpuStorage Fl.F32) → Unchanged s (allocate_page Fl s)
  unfolding allocate_page
  allocate_page-Unchanged s = elim (Result-cases (allocate Fl s.pool)) [
    | inl ((a, b), fine) ↦ rw fine tt
    | inr (inl (e, bad)) ↦ rw bad refl
    | inr (inr stuck) ↦ rw stuck tt
  ]

  -- Every operation of the contract that fails leaves the pool and all page tables as they were, a
  -- pending append stays open, and a retirement that fails gives back every page.
  pub cpu_backend-KeepsOnError : KeepsOnError (cpu_backend Fl)
  unfolding update_page_table
  cpu_backend-KeepsOnError = record {
    allocate_page = allocate_page-Unchanged;
    prepare_append = λ pages position s. prepare_append-Unchanged pages s;
    abort_append = λ t restored released position s.
        StillOpen-Unchanged t s (publish_and_release restored released position s)
          (publish_and_release-Unchanged restored released position s);
    commit_append = λ t commit s.
        StillOpen-Unchanged t s
          (publish_and_release commit.committed_pages commit.released_pages commit.position s)
          (publish_and_release-Unchanged commit.committed_pages commit.released_pages
            commit.position s);
    update_page_table = λ pages position s.
        if_valid-Unchanged (validate_pages pages s.pool)
          (ok tt, publish_in_context pages position s) s tt;
    retire_pages = retire_pages-ComesBack;
  }
