-- ===== src/CpuPagedKv/Contract.antt =====
-- The backend of examples/cpu_paged_kv.rs where it fails, operation by operation. A partial-page copy
-- allocates before it copies, and the copy into the new page cannot fail.
use seqcache.Prelude.{
  ℕ, ◌≡◌, refl, sym, ap, ◌∙◌, subst, true, false, Option, none, some, List, [], ◌∷◌, length,
  get_elem?, get_elem?-push, get_elem?-set_self, unwrap_or, ltb, ltb→lt, ◌==◌, ==_iff, Option-cases,
  Bool-cases, List-cases, inl, inr, if◌then◌else◌, Bool, ◌++◌,
}
use seqcache.Error.{Result, ok, err, panic, Result-cases, ◌>>=◌}
use seqcache.Backend.{PageAllocation}
use seqcache.Backend.Keeping.{
  Failing, IsSame, KeepsSeen, Unchanged-Failing, StillOpen-FailingOpen, ComesBack-FailingBack,
}
use seqcache.CpuPagedKv.Floats.{Floats}
use seqcache.CpuPagedKv.Page.{
  CpuPage, CpuKvPage, LayerKv, read_at, slice, splice, clear_rows, copy_layer, copy_layers,
  copy_rows_from,
}
use seqcache.CpuPagedKv.Pool.{
  CpuKvBackend, CpuBackendError, CpuResult, is_live, storage, reuse_page, push_page, allocate,
}
use seqcache.CpuPagedKv.Backend.{
  CpuStorage, copy_into, copy_partial_page, allocate_page, prepare_append, publish_and_release,
  update_page_table, retire_pages, cpu_backend,
}
use seqcache.CpuPagedKv.Atomic.{cpu_backend-KeepsOnError}

-- A result that is no error.
abbrev NoError : {E A : Type 0} → Result E A → Type 0
NoError (err e) = ⊥
NoError _ = Unit {0}

>>=-NoError :
    {E A B : Type 0} (m : Result E A) (f : A → Result E B)
    → NoError m
    → ((a : A) → NoError (f a))
    → NoError (m >>= f)
>>=-NoError (ok a) f h rest = rest a
>>=-NoError (err e) f h rest = h
>>=-NoError panic f h rest = tt

-- What is checked by `if .. then ok .. else panic`.
checked-NoError :
    (E : Type 0) {A : Type 0} (test : Bool) (a : A) → NoError {E = E} (if test then ok a else panic)
checked-NoError E true a = tt
checked-NoError E false a = tt

read_at-NoError : (E : Type 0) {A : Type 0} (xs : List A) (i : ℕ) → NoError (read_at {E = E} xs i)
read_at-NoError E {A} xs i = found (get_elem? xs i)
  where
    found : (o : Option A) → NoError {E = E} (elim o [ none ↦ panic | some a ↦ ok a ])
    found none = tt
    found (some a) = tt

module _ (E : Type 0) {F : Type 0} where
  copy_layer-NoError :
      (from to : ℕ) (source l : LayerKv F) → NoError (copy_layer {E = E} from to source l)
  unfolding copy_layer
  copy_layer-NoError from to source l =
      >>=-NoError (slice source.key from to) _ (checked-NoError E _ _) (λ key.
        >>=-NoError (splice l.key from to key) _ (checked-NoError E _ _) (λ keys.
          >>=-NoError (slice source.value from to) _ (checked-NoError E _ _) (λ value.
            >>=-NoError (splice l.value from to value) _ (checked-NoError E _ _) (λ values. tt))))

  copy_layers-NoError :
      (from to : ℕ) (ss ls : List (LayerKv F)) → NoError (copy_layers {E = E} from to ss ls)
  unfolding copy_layers
  copy_layers-NoError from to [] ls = tt
  copy_layers-NoError from to (s ∷ ss) [] = tt
  copy_layers-NoError from to (s ∷ ss) (l ∷ ls) =
      >>=-NoError (copy_layer from to s l) _ (copy_layer-NoError from to s l) (λ l'.
        >>=-NoError (copy_layers from to ss ls) _ (copy_layers-NoError from to ss ls) (λ ls'. tt))

  copy_rows_from-NoError :
      (source : CpuKvPage F) (from to : ℕ) (p : CpuKvPage F)
      → NoError (copy_rows_from {E = E} source from to p)
  unfolding copy_rows_from
  copy_rows_from-NoError source from to p =
      >>=-NoError (copy_layers _ _ source.layers p.layers) _
        (copy_layers-NoError _ _ source.layers p.layers) (λ layers. tt)

storage-NoError :
    {F : Type 0} (b : CpuKvBackend F) (p : CpuPage) → is_live b p ≡ true → NoError (storage b p)
unfolding storage
storage-NoError b p live = rw live (read_at-NoError CpuBackendError b.slots p.slot)

module _ (Fl : Floats) where
  -- A page that is given out is live.
  abbrev IsGiven : CpuResult (PageAllocation CpuPage × CpuKvBackend Fl.F32) → Type 0
  IsGiven (ok (a, b)) = is_live b a.page ≡ true
  IsGiven _ = Unit {0}

  reuse_page-IsGiven :
      (slot : ℕ) (rest : List ℕ) (b : CpuKvBackend Fl.F32) → IsGiven (reuse_page Fl slot rest b)
  unfolding reuse_page is_live
  reuse_page-IsGiven slot rest b = elim (Bool-cases (ltb slot (length b.live))) [
    | inr past ↦ rw past tt
    | inl within ↦ elim (Option-cases (get_elem? b.slots slot)) [
      | inl missing ↦ rw (within, missing, read_at) tt
      | inr (p, at) ↦ elim (Result-cases (clear_rows Fl {E = CpuBackendError} 0 4 p)) [
        | inl (p', fine) ↦
            rw (within, at, read_at, fine)
              (rw (get_elem?-set_self b.live slot true (ltb→lt slot (length b.live) within)) refl)
        | inr (inl (e, bad)) ↦ rw (within, at, read_at, bad) tt
        | inr (inr stuck) ↦ rw (within, at, read_at, stuck) tt
      ]
    ]
  ]

  push_page-IsGiven :
      (b : CpuKvBackend Fl.F32) → length b.live ≡ length b.slots → IsGiven (push_page Fl b)
  unfolding push_page is_live
  push_page-IsGiven b sized = elim (Bool-cases (length b.slots == b.max_pages)) [
    | inl full ↦ rw full tt
    | inr room ↦ rw room (
        ap (λ n. unwrap_or (get_elem? (b.live ++ true ∷ []) n) false) (sym sized)
        ∙ rw
            (
              get_elem?-push b.live true (length b.live),
              (==_iff (length b.live) (length b.live)).1 refl,
            )
            refl)
  ]

  allocate-IsGiven :
      (b : CpuKvBackend Fl.F32) → length b.live ≡ length b.slots → IsGiven (allocate Fl b)
  unfolding allocate
  allocate-IsGiven b sized =
      let from : List ℕ → CpuResult (PageAllocation CpuPage × CpuKvBackend Fl.F32) =
        λ xs. elim xs [ slot ∷ rest ↦ reuse_page Fl slot rest b | [] ↦ push_page Fl b ] in
      elim (List-cases b.free_slots) [
        | inl empty ↦ subst IsGiven (sym (ap from empty)) (push_page-IsGiven b sized)
        | inr (slot, rest, free) ↦
            subst IsGiven (sym (ap from free)) (reuse_page-IsGiven slot rest b)
      ]

  copy_into-Failing :
      (source : CpuKvPage Fl.F32) (n : ℕ) (s : CpuStorage Fl.F32)
      (r : CpuResult (PageAllocation CpuPage × CpuKvBackend Fl.F32))
      → IsGiven r
      → Failing IsSame s (copy_into Fl source n s r)
  unfolding copy_into
  copy_into-Failing source n s (ok (a, b)) live =
      let sure =
        >>=-NoError (storage b a.page) (λ p. copy_rows_from source 0 n p)
          (storage-NoError b a.page live) (copy_rows_from-NoError CpuBackendError source 0 n) in
      elim (Result-cases (storage b a.page >>= λ p. copy_rows_from source 0 n p)) [
        | inl (p, fine) ↦ rw (fine, Failing) tt
        | inr (inl (e, bad)) ↦ absurd (rw bad at sure)
        | inr (inr stuck) ↦ rw (stuck, Failing) tt
      ]
  copy_into-Failing source n s (err e) live = refl
  copy_into-Failing source n s panic live = tt

  copy_partial_page-Failing :
      (source : CpuPage) (n : ℕ) (s : CpuStorage Fl.F32)
      → length s.pool.live ≡ length s.pool.slots
      → Failing IsSame s (copy_partial_page Fl source n s)
  unfolding copy_partial_page
  copy_partial_page-Failing source n s sized = from (storage s.pool source)
    where
      from :
          (r : CpuResult (CpuKvPage Fl.F32))
          → Failing IsSame {E = CpuBackendError} {A = PageAllocation CpuPage} s (elim r [
            | ok rows ↦ copy_into Fl rows n s (allocate Fl s.pool)
            | err e ↦ (err e, s)
            | panic ↦ (panic, s)
          ])
      from (ok rows) =
          copy_into-Failing rows n s (allocate Fl s.pool) (allocate-IsGiven s.pool sized)
      from (err e) = refl
      from panic = tt

  -- On a pool with as many marks of liveness as slots, every operation of the CPU backend that fails
  -- leaves the pool and all page tables as they were: a partial-page copy too, although it allocates
  -- before it copies. A pending append stays open, and a retirement that fails gives back every page.
  pub cpu_backend-KeepsSeen :
      (s : CpuStorage Fl.F32)
      → length s.pool.live ≡ length s.pool.slots
      → KeepsSeen (cpu_backend Fl) IsSame s
  cpu_backend-KeepsSeen s sized =
      let kept = cpu_backend-KeepsOnError Fl in
      record {
        allocate_page = Unchanged-Failing s (allocate_page Fl s) (kept.allocate_page s);
        prepare_append = λ pages position.
            Unchanged-Failing s (prepare_append pages s) (kept.prepare_append pages position s);
        abort_append = λ t restored released position.
            let (r, s') = publish_and_release restored released position s in
            StillOpen-FailingOpen t s (r, t, s') (kept.abort_append t restored released position s);
        copy_partial_page = λ source n. copy_partial_page-Failing source n s sized;
        commit_append = λ t commit.
            let (r, s') =
              publish_and_release commit.committed_pages commit.released_pages commit.position s in
            StillOpen-FailingOpen t s (r, t, s') (kept.commit_append t commit s);
        update_page_table = λ pages position.
            Unchanged-Failing s (update_page_table pages position s)
              (kept.update_page_table pages position s);
        retire_pages = λ pages.
            ComesBack-FailingBack pages s (retire_pages pages s) (kept.retire_pages pages s);
      }
