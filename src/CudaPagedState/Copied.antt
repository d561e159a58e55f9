-- ===== src/CudaPagedState/Copied.antt =====
-- examples/cuda_paged_state.rs: a partial-page copy that fails gives its new page back, whether that
-- page was free or came from the driver.
use seqcache.Prelude.{
  ℕ, ◌≡◌, refl, ap, subst, ◌∙◌, ◌⊎◌, inl, inr, true, false, Bool, Bool-cases, Option, none, some,
  List, [], ◌∷◌, ◌++◌, length, length-append, get_elem?, get_elem?-lt, get_elem?_past,
  get_elem?-push, get_elem?-set_self, set-set_back, set, unwrap_or, lt→ltb, ◌==◌, ==_iff,
  if◌then◌else◌, ◌*◌, arith,
}
use seqcache.Error.{ok, err, panic}
use seqcache.Exec.{◌>>=◌}
use seqcache.Backend.Keeping.{Failing, Quiet, Sure}
use seqcache.PageSlots.{IsPartition, live_at, live_at-set}
use seqcache.CudaPagedState.Driver.{Cuda, CudaBackendError, page_tokens, float_bytes, checked}
use seqcache.CudaPagedState.Device.{DeviceAllocation, new_allocation}
use seqcache.CudaPagedState.Pool.{
  CudaPage, CudaPageBackend, CudaStorage, CudaResult, is_live, pointer, allocation_of, put_backend,
  on_driver, release, take_slot, push_page, pop_or_push, allocate,
}
use seqcache.CudaPagedState.Backend.{expected, keep_or_release, copy_into}
use seqcache.CudaPagedState.Kept.{
  SameTables, SamePool, SamePool-refl, SameTables-trans, on_driver-Quiet,
}

-- The free slots of the pool are its dead ones, and every slot has its memory.
pub record IsSound (b : CudaPageBackend) : Type 0 where
  pub partition : IsPartition b.live b.free_slots
  pub sized : length b.live ≡ length b.allocations

-- A slot that was pushed and is released is as dead as before.
live_at-pushed :
    (live : List Bool) (i : ℕ)
    → live_at (set (live ++ true ∷ []) (length live) false) i ≡ live_at live i
live_at-pushed live i =
    live_at-set (live ++ true ∷ []) (length live) i false
      (omega (arith, length-append live (true ∷ [])))
    ∙ pushed (Bool-cases (i == length live))
  where
    pushed :
        ((i == length live) ≡ true) ⊎ ((i == length live) ≡ false)
        → (if i == length live then false else live_at (live ++ true ∷ []) i) ≡ live_at live i
    pushed (inl e) =
        rw (e, get_elem?_past live i (omega (arith, (==_iff i (length live)).0 e))) refl
    pushed (inr e) = rw (e, get_elem?-push live true i) (rw e refl)

module _ {C : Cuda} where
  -- The same pages are live, and the host's record of every table is the same.
  abbrev pub SamePages : CudaStorage C → CudaStorage C → Type 0
  SamePages s s' = ((p : CudaPage) → is_live s'.backend p ≡ is_live s.backend p) × SameTables s s'

  -- The storage `s'` is `s` with one more live slot.
  record Allocated (s s' : CudaStorage C) (slot : ℕ) : Type 0 where
    live : live_at s'.backend.live slot ≡ true
    restored : (i : ℕ) → live_at (set s'.backend.live slot false) i ≡ live_at s.backend.live i
    tables : SameTables s s'

  keep_or_release-Failing :
      (s s' : CudaStorage C) (slot : ℕ) (recycled : Bool)
      → Allocated s s' slot
      → (x : CudaResult (Unit {0}) × CudaStorage C) → Quiet SamePool s' x
      → Failing SamePages s (keep_or_release (allocation_of slot recycled) x)
  unfolding keep_or_release release is_live expected
  keep_or_release-Failing s s' slot recycled a (ok _, end) h = tt
  keep_or_release-Failing s s' slot recycled a (err e, end) (pool, tables) =
      let page : CudaPage = record { slot = slot } in
      let live : is_live end.backend page ≡ true = ap (λ b. live_at b.live slot) pool ∙ a.live in
      rw live (
        (λ p. ap (λ b. live_at (set b.live slot false) p.slot) pool ∙ a.restored p.slot),
        SameTables-trans s s' end a.tables tables,
      )
  keep_or_release-Failing s s' slot recycled a (panic, end) h = tt

  pointer-Sure :
      (b : CudaPageBackend) (p : CudaPage) (s : CudaStorage C)
      → is_live b p ≡ true
      → Sure (pointer b p, s)
  unfolding pointer
  pointer-Sure b p s live = rw live (found (get_elem? b.allocations p.slot))
    where
      found :
          (o : Option DeviceAllocation)
          → Sure {E = CudaBackendError} (elim o [ none ↦ panic | some a ↦ ok a.pointer ], s)
      found none = tt
      found (some a) = tt

  copy_into-Failing :
      (s s' : CudaStorage C) (slot : ℕ) (recycled : Bool) (source n : ℕ)
      → Allocated s s' slot
      → Failing SamePages s (copy_into source n (allocation_of slot recycled) s')
  unfolding copy_into is_live
  copy_into-Failing s s' slot recycled source n a =
      let page : CudaPage = record { slot = slot } in
      pointed (pointer s'.backend page) (pointer-Sure s'.backend page s' a.live)
    where
      pointed :
          (r : CudaResult ℕ)
          → Sure (r, s')
          → Failing SamePages s (
              ((λ (t : CudaStorage C). (r, t)) >>= (λ destination t.
                  keep_or_release (allocation_of slot recycled) (
                    on_driver
                      (checked "cuMemcpyDtoD(partial page)"
                        (C.cu_memcpy_dtod destination source (n * float_bytes)))
                      t)))
                s')
      pointed (ok d) h =
          keep_or_release-Failing s s' slot recycled a
            (on_driver
              (checked "cuMemcpyDtoD(partial page)" (C.cu_memcpy_dtod d source (n * float_bytes)))
              s')
            (on_driver-Quiet
              (checked "cuMemcpyDtoD(partial page)" (C.cu_memcpy_dtod d source (n * float_bytes)))
              s')
      pointed (err e) h = absurd h
      pointed panic h = tt

  taken-Allocated :
      (s : CudaStorage C) (slot : ℕ) (rest : List ℕ)
      → get_elem? s.backend.live slot ≡ some false
      → Allocated s
          (put_backend
            (record s.backend { live = set s.backend.live slot true; free_slots = rest })
            s)
          slot
  taken-Allocated s slot rest at =
      let live = s.backend.live in
      let within = get_elem?-lt live slot at in
      record {
        live = rw (get_elem?-set_self live slot true within) refl;
        restored = λ i. ap (λ l. live_at l i) (set-set_back live slot true at);
        tables = (SamePool-refl s).1;
      }

  pushed-Failing :
      (s : CudaStorage C) (source n : ℕ) (x : CudaResult DeviceAllocation × C.Driver)
      → IsSound s.backend
      → Failing SamePages s ((push_page x >>= copy_into source n) s)
  unfolding push_page
  pushed-Failing s source n (ok a, d) sound =
      let live = s.backend.live in
      let pushed : CudaPageBackend = record s.backend {
        allocations = s.backend.allocations ++ a ∷ [];
        live = live ++ true ∷ [];
      } in
      copy_into-Failing s (record s { backend = pushed; driver = d }) (length s.backend.allocations)
        false source n
        (subst (Allocated s (record s { backend = pushed; driver = d })) sound.sized (record {
          live =
              ap (λ o. unwrap_or o false) (get_elem?-push live true (length live))
              ∙ rw ((==_iff (length live) (length live)).1 refl) refl;
          restored = live_at-pushed live;
          tables = (SamePool-refl s).1;
        }))
  pushed-Failing s source n (err e, d) sound = ((λ p. refl), (SamePool-refl s).1)
  pushed-Failing s source n (panic, d) sound = tt

  pop_or_push-Failing :
      (s : CudaStorage C) (source n : ℕ) (free : List ℕ)
      → IsSound s.backend
      → IsPartition s.backend.live free
      → Failing SamePages s ((pop_or_push free >>= copy_into source n) s)
  unfolding pop_or_push take_slot
  pop_or_push-Failing s source n [] sound part =
      elim (Bool-cases (length s.backend.allocations == s.backend.max_pages)) [
        | inl full ↦ rw full ((λ p. refl), (SamePool-refl s).1)
        | inr room ↦ rw room (
            pushed-Failing s source n (new_allocation C (page_tokens * float_bytes) s.driver) sound)
      ]
  pop_or_push-Failing s source n (slot ∷ rest) sound part =
      let (at, others, dead) = part.dead in
      let live = s.backend.live in
      rw (lt→ltb slot (length live) (get_elem?-lt live slot at)) (
        copy_into-Failing s
          (put_backend (record s.backend { live = set live slot true; free_slots = rest }) s) slot
          true source n (taken-Allocated s slot rest at))

  pub allocated-Failing :
      (s : CudaStorage C) (source n : ℕ)
      → IsSound s.backend
      → Failing SamePages s ((allocate >>= copy_into source n) s)
  unfolding allocate
  allocated-Failing s source n sound =
      pop_or_push-Failing s source n s.backend.free_slots sound sound.partition
