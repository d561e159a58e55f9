-- ===== src/WgpuPagedState/Retire.antt =====
-- examples/wgpu_paged_state.rs: `retire_pages` releases the whole batch or nothing.
use seqcache.Prelude.{◌≡◌, refl, sym, subst, true, inl, inr, List, All, ◌∙◌}
use seqcache.Error.{Result, ok, err, panic, Result-cases}
use seqcache.Exec.{◌>>◌}
use seqcache.Backend.{RetireError, RetireOutcome}
use seqcache.Backend.Keeping.{Quiet}
use seqcache.PageSlots.{IsPartition, AreApart, live_at}
use seqcache.WgpuPagedState.Gpu.{Wgpu, WgpuBackendError}
use seqcache.WgpuPagedState.Pool.{
  WgpuPage, WgpuPageBackend, WgpuResult, is_live, wait_for_gpu, validate_distinct_pages,
}
use seqcache.WgpuPagedState.Backend.{
  WgpuStorage, release_all, retired_or_back, retire_pages, put_backend,
}
use seqcache.WgpuPagedState.Kept.{SameSlots, SamePages, wait_for_gpu-Quiet}
use seqcache.WgpuPagedState.Retired.{slots_of, AreLive, Retired, Releases, release_all-Releases}
use seqcache.WgpuPagedState.Distinct.{
  Settled, validate_distinct_pages-Settled, validate_distinct_pages_sound, wait_for_gpu-Settled,
}

module _ {G : Wgpu} where
  -- What a retirement means: all pages were live and are not, no other page changes, and the tables
  -- stay; or the pages come back, and the pages and tables are the same.
  abbrev pub Retires :
      List WgpuPage
      → WgpuStorage G
      → Result (RetireError (WgpuBackendError G.Message) WgpuPage) RetireOutcome × WgpuStorage G
      → Type 0
  Retires pages s (ok _, s') =
      AreLive s.backend pages × Retired s.backend pages s'.backend × (s'.tables ≡ s.tables)
  Retires pages s (err e, s') = SamePages s s' × (e.pages ≡ pages)
  Retires pages s (panic, s') = ⊥

  released-Retires :
      (pages : List WgpuPage) (s : WgpuStorage G) (b : WgpuPageBackend G)
      → SameSlots s.backend b
      → AreLive s.backend pages
      → (x : WgpuResult G (Unit {0}) × WgpuPageBackend G) → Releases b pages x
      → Retires pages s (retired_or_back pages (x.0, put_backend x.1 s))
  unfolding retired_or_back is_live
  released-Retires pages s b (live, free) valid (ok _, b') h =
      (valid, record { partition = h.partition; turned = λ p. h.turned p ∙ rw live refl }, refl)
  released-Retires pages s b same valid (err e, b') h = absurd h
  released-Retires pages s b same valid (panic, b') h = absurd h

  waited-Retires :
      (pages : List WgpuPage) (s : WgpuStorage G)
      → IsPartition s.backend.live s.backend.free_slots
      → AreLive s.backend pages
      → AreApart (slots_of pages)
      → (x : WgpuResult G (Unit {0}) × WgpuPageBackend G) → Settled x.0
      → Quiet SameSlots s.backend x
      → Retires pages s (
          let y = ((λ (t : WgpuPageBackend G). x) >> release_all pages) s.backend in
          retired_or_back pages (y.0, put_backend y.1 s))
  unfolding retired_or_back is_live
  waited-Retires pages s part valid apart (ok _, b) settled (live, free) =
      released-Retires pages s b (live, free) valid (release_all pages b)
        (release_all-Releases pages b
          (subst (λ l. IsPartition l b.free_slots) (sym live)
            (subst (IsPartition s.backend.live) (sym free) part))
          (subst (λ l. All (λ p. live_at l p.slot ≡ true) pages) (sym live) valid) apart)
  waited-Retires pages s part valid apart (err e, b) settled same = ((same, refl), refl)
  waited-Retires pages s part valid apart (panic, b) settled same = absurd settled

  -- On a storage whose free slots are its dead ones, retire_pages never panics, whatever the batch.
  -- Either every page of the batch was live, and now those are not, every other page is as it was and
  -- the free slots are the dead ones; or the pages come back, and which pages are live and free is as
  -- it was. The page tables stay either way.
  pub retire_pages-Retires :
      (pages : List WgpuPage) (s : WgpuStorage G)
      → IsPartition s.backend.live s.backend.free_slots
      → Retires pages s (retire_pages pages s)
  unfolding retire_pages
  retire_pages-Retires pages s part =
      elim (Result-cases (validate_distinct_pages s.backend pages)) [
        | inl (_, fine) ↦
            let (valid, apart) = validate_distinct_pages_sound s.backend pages fine in
            rw fine (
              waited-Retires pages s part valid apart (wait_for_gpu s.backend)
                (wait_for_gpu-Settled s.backend) (wait_for_gpu-Quiet s.backend))
        | inr (inl (e, bad)) ↦ rw (bad, retired_or_back) (((refl, refl), refl), refl)
        | inr (inr stuck) ↦
            absurd (subst Settled stuck (validate_distinct_pages-Settled s.backend pages))
      ]
