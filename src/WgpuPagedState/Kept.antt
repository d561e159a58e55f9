-- ===== src/WgpuPagedState/Kept.antt =====
-- The backend of examples/wgpu_paged_state.rs keeps its pages and page tables where it fails.
use seqcache.Prelude.{
  ℕ, ◌≡◌, refl, ◌∙◌, inl, inr, none, some, Bool, true, false, List, [], ◌∷◌, map, Option,
}
use seqcache.Error.{ok, err, panic, Result-cases}
use seqcache.Exec.{◌>>◌, reads, raise_if}
use seqcache.Backend.{BackendAppendPage}
use seqcache.Backend.Keeping.{
  Failing, Quiet, Sure, reads-Quiet, then-Sure, Quiet-after, Failing-after, Failing-before,
}
use seqcache.WgpuPagedState.Gpu.{Wgpu, WgpuBackendError}
use seqcache.WgpuPagedState.Pool.{
  WgpuPage, WgpuPageBackend, WgpuResult, release, wait_for_gpu, wait_for, polled, validate_pages,
}
use seqcache.WgpuPagedState.Table.{publish}
use seqcache.WgpuPagedState.Backend.{
  WgpuStorage, expected, on_backend, put_backend, release_all, published_in, publish_table,
  update_page_table, publish_and_release, prepare_append,
}

module _ {G : Wgpu} where
  abbrev pub SameSlots : WgpuPageBackend G → WgpuPageBackend G → Type 0
  SameSlots b b' = (b'.live ≡ b.live) × (b'.free_slots ≡ b.free_slots)

  -- The same pages are live and free, and every page table is the same.
  abbrev pub SamePages : WgpuStorage G → WgpuStorage G → Type 0
  SamePages s s' = SameSlots s.backend s'.backend × (s'.tables ≡ s.tables)

  pub SameSlots-trans : (a b c : WgpuPageBackend G) → SameSlots a b → SameSlots b c → SameSlots a c
  SameSlots-trans a b c (l, f) (l', f') = (l' ∙ l, f' ∙ f)

  SamePages-trans : (a b c : WgpuStorage G) → SamePages a b → SamePages b c → SamePages a c
  SamePages-trans a b c (h, t) (h', t') =
      (SameSlots-trans a.backend b.backend c.backend h h', t' ∙ t)

  polled-Quiet :
      (x : Option G.Message × G.Device) (b : WgpuPageBackend G) → Quiet SameSlots b (polled x b)
  unfolding polled
  polled-Quiet (none, d) b = (refl, refl)
  polled-Quiet (some m, d) b = (refl, refl)

  wait_for-Quiet :
      (pending : Option G.SubmissionIndex) (b : WgpuPageBackend G)
      → Quiet SameSlots b (wait_for pending b)
  unfolding wait_for
  wait_for-Quiet none b = (refl, refl)
  wait_for-Quiet (some i) b = polled-Quiet (G.poll i b.device) b

  pub wait_for_gpu-Quiet : (b : WgpuPageBackend G) → Quiet SameSlots b (wait_for_gpu b)
  unfolding wait_for_gpu
  wait_for_gpu-Quiet b = wait_for-Quiet b.last_submission b

  pub lift-Failing :
      {A : Type 0} (s : WgpuStorage G) (x : WgpuResult G A × WgpuPageBackend G)
      → Failing SameSlots s.backend x
      → Failing SamePages s (x.0, put_backend x.1 s)
  lift-Failing s (ok a, b) h = tt
  lift-Failing s (err e, b) h = (h, refl)
  lift-Failing s (panic, b) h = tt

  lift-Quiet :
      {A : Type 0} (s : WgpuStorage G) (x : WgpuResult G A × WgpuPageBackend G)
      → Quiet SameSlots s.backend x
      → Quiet SamePages s (x.0, put_backend x.1 s)
  lift-Quiet s (ok a, b) h = (h, refl)
  lift-Quiet s (err e, b) h = (h, refl)
  lift-Quiet s (panic, b) h = tt

  expected-Sure : {A : Type 0} (x : WgpuResult G A × WgpuPageBackend G) → Sure (expected x)
  expected-Sure (ok a, b) = tt
  expected-Sure (err e, b) = tt
  expected-Sure (panic, b) = tt

  pub release_all-Sure :
      (pages : List WgpuPage) (b : WgpuPageBackend G) → Sure (release_all pages b)
  unfolding release_all
  release_all-Sure [] b = tt
  release_all-Sure (p ∷ ps) b =
      then-Sure (expected (release p b)) (release_all ps) b (expected-Sure (release p b))
        (release_all-Sure ps)

  publish_table-Failing :
      (pages : List WgpuPage) (position : ℕ) (s : WgpuStorage G)
      → Failing SamePages s (publish_table pages position s)
  unfolding publish_table published_in
  publish_table-Failing pages position s =
      elim (Result-cases (publish pages position (s.tables s.context) s.backend.device)) [
        | inl (a, fine) ↦ rw fine tt
        | inr (inl (e, bad)) ↦ rw bad ((refl, refl), refl)
        | inr (inr stuck) ↦ rw stuck tt
      ]

  pub read-Quiet : {A : Type 0} (s : WgpuStorage G) (r : WgpuResult G A) → Quiet SamePages s (r, s)
  read-Quiet s r = reads-Quiet SamePages s r ((refl, refl), refl)

  pub update_page_table-Failing :
      (pages : List WgpuPage) (position : ℕ) (s : WgpuStorage G)
      → Failing SamePages s (update_page_table pages position s)
  unfolding update_page_table
  update_page_table-Failing pages position s =
      let valid = validate_pages s.backend pages in
      Failing-after SamePages SamePages-trans s (λ _. publish_table pages position) (valid, s)
        (read-Quiet s valid) (λ _ s' same. publish_table-Failing pages position s')

  on_release-Sure :
      (released : List WgpuPage) (s : WgpuStorage G) → Sure (on_backend (release_all released) s)
  on_release-Sure released s =
      lifted (release_all released s.backend) (release_all-Sure released s.backend)
    where
      lifted :
          (x : WgpuResult G (Unit {0}) × WgpuPageBackend G) → Sure x → Sure (x.0, put_backend x.1 s)
      lifted (ok a, b) h = tt
      lifted (err e, b) h = h
      lifted (panic, b) h = tt

  -- The checks of both lists with the wait.
  checked-Quiet :
      (pages released : List WgpuPage) (s : WgpuStorage G)
      → Quiet SamePages s (
          (reads (λ t. validate_pages t.backend pages)
              >> reads (λ t. validate_pages t.backend released)
              >> on_backend wait_for_gpu)
            s)
  checked-Quiet pages released s =
      let valid = validate_pages s.backend pages in
      let valid' = λ (t : WgpuStorage G). validate_pages t.backend released in
      Quiet-after SamePages SamePages-trans s (λ _. on_backend wait_for_gpu)
        ((reads (λ t. validate_pages t.backend pages) >> reads valid') s)
        (Quiet-after SamePages SamePages-trans s (λ _. reads valid') (valid, s) (read-Quiet s valid)
          (λ _ s' same. read-Quiet s' (valid' s')))
        (λ _ s' same. lift-Quiet s' (wait_for_gpu s'.backend) (wait_for_gpu-Quiet s'.backend))

  pub publish_and_release-Failing :
      (pages released : List WgpuPage) (position : ℕ) (s : WgpuStorage G)
      → Failing SamePages s (publish_and_release pages released position s)
  unfolding publish_and_release
  publish_and_release-Failing pages released position s =
      let checked =
        reads (λ (t : WgpuStorage G). validate_pages t.backend pages)
        >> reads (λ t. validate_pages t.backend released)
        >> on_backend wait_for_gpu in
      Failing-before SamePages SamePages-trans s (λ _. on_backend (release_all released))
        ((checked >> publish_table pages position) s)
        (Failing-after SamePages SamePages-trans s (λ _. publish_table pages position) (checked s)
          (checked-Quiet pages released s) (λ _ s' same. publish_table-Failing pages position s'))
        (λ _ s'. on_release-Sure released s')

  pub prepare_append-Failing :
      (pages : List (BackendAppendPage WgpuPage)) (s : WgpuStorage G)
      → Failing SamePages s (prepare_append pages s)
  unfolding prepare_append
  prepare_append-Failing pages s =
      let valid = validate_pages s.backend (map (λ p. p.page) pages) in
      Failing-after SamePages SamePages-trans s (λ _. raise_if _ _) (valid, s) (read-Quiet s valid)
        (λ _ s' same. raise_if-Failing _ _ s')
    where
      raise_if-Failing :
          (past : Bool) (e : WgpuBackendError G.Message) (s' : WgpuStorage G)
          → Failing SamePages s' (raise_if past e s')
      raise_if-Failing true e s' = ((refl, refl), refl)
      raise_if-Failing false e s' = tt
