-- ===== src/CpuPagedKv/Pooled.antt =====
-- examples/cpu_paged_kv.rs: what `allocate` and `release` do to the set of live pages.
use seqcache.Prelude.{
  List-cases, ℕ, ◌<◌, ◌≡◌, refl, ap, sym, subst, ◌∙◌, Bool, true, false, some, none, List, [], ◌∷◌,
  length, get_elem?, set, unwrap_or, All-get_elem?, All-set, All-append, count_by, sum_by-set,
  sum_by-append, indicator, get_elem?_past, get_elem?_within, lt→ltb, get_elem?-lt, get_elem?-set,
  get_elem?-push, get_elem?-set_self, length-set, length-append, ◌==◌, if◌then◌else◌, Bool-cases,
  Option-cases, inl, inr, arith,
}
use seqcache.Error.{Result, ok, err, panic}
use seqcache.Backend.{PageAllocation}
use seqcache.CpuPagedKv.Floats.{Floats}
use seqcache.CpuPagedKv.Page.{CpuPage, CpuKvPage, read_at, new_page}
use seqcache.CpuPagedKv.Pool.{
  CpuBackendError, CpuKvBackend, CpuResult, out_of_pages, stale_page, is_live, release, reuse_page,
  push_page, allocate,
}
use seqcache.CpuPagedKv.Dead.{
  IsShaped, AreDead, IsPooled, AreDead-set, AreDead-push, live-apart, clear_rows-new_page,
  new_page-IsShaped,
}

-- The liveness of every page, after one slot becomes live or dead.
abbrev pub Turns : {F : Type 0} → CpuKvBackend F → ℕ → Bool → CpuKvBackend F → Type 0
Turns b slot l b' = (p : CpuPage) → is_live b' p ≡ (if p.slot == slot then l else is_live b p)

-- The contents of every slot, after one is written.
abbrev pub Fills : {F : Type 0} → CpuKvBackend F → ℕ → CpuKvPage F → CpuKvBackend F → Type 0
Fills b slot page b' =
    (i : ℕ) → get_elem? b'.slots i ≡ (if i == slot then some page else get_elem? b.slots i)

-- What an allocation means: a page that was not live and is live, zeroed, and nothing else changes; or
-- the pool is at its limit with every slot live. It does not panic.
abbrev pub Allocates :
    (Fl : Floats)
    → CpuKvBackend Fl.F32
    → Result CpuBackendError (PageAllocation CpuPage × CpuKvBackend Fl.F32)
    → Type 0
Allocates Fl b (ok (a, b')) =
    IsPooled b'
    × (is_live b a.page ≡ false)
    × Turns b a.page.slot true b'
    × Fills b a.page.slot (new_page Fl) b'
Allocates Fl b (err e) = (e ≡ out_of_pages) × (count_by (λ l. l) b.live ≡ b.max_pages)
Allocates Fl b panic = ⊥

turns :
    (live : List Bool) (slot : ℕ) (l : Bool)
    → slot < length live
    → (p : CpuPage)
    → unwrap_or (get_elem? (set live slot l) p.slot) false
      ≡ (if p.slot == slot then l else unwrap_or (get_elem? live p.slot) false)
turns live slot l within p =
    ap (λ o. unwrap_or o false) (get_elem?-set live slot p.slot l within)
    ∙ elim (Bool-cases (p.slot == slot)) [ inl e ↦ rw e refl | inr e ↦ rw e refl ]

module _ (Fl : Floats) (b : CpuKvBackend Fl.F32) (pool : IsPooled b) where
  pushed :
      (i : ℕ)
      → unwrap_or (if i == length b.live then some true else get_elem? b.live i) false
        ≡ (if i == length b.slots then true else unwrap_or (get_elem? b.live i) false)
  pushed i =
      rw (pool.sized)
        (elim (Bool-cases (i == length b.slots)) [ inl e ↦ rw e refl | inr e ↦ rw e refl ])

  reuse_page-Allocates :
      (slot : ℕ) (rest : List ℕ)
      → b.free_slots ≡ slot ∷ rest
      → Allocates Fl b (reuse_page Fl slot rest b)
  unfolding reuse_page is_live
  reuse_page-Allocates slot rest free =
      let (at, others, dead) = subst (AreDead b.live) free pool.dead in
      let within = get_elem?-lt b.live slot at in
      let inside : slot < length b.slots = omega (arith, within, pool.sized) in
      let (p, here) = get_elem?_within b.slots slot inside in
      let shaped = All-get_elem? IsShaped b.slots slot pool.shaped here in
      let live = lt→ltb slot (length b.live) within in
      let moved = sum_by-set (λ l. indicator l) b.live slot true at in
      rw (live, here, read_at, clear_rows-new_page Fl CpuBackendError p shaped)
        (
          record {
            sized = omega (
              arith,
              pool.sized,
              length-set b.live slot true,
              length-set b.slots slot (new_page Fl),
            );
            bounded = omega (arith, pool.bounded, length-set b.slots slot (new_page Fl));
            shaped = All-set IsShaped b.slots slot (new_page Fl) (new_page-IsShaped Fl) pool.shaped;
            dead = AreDead-set b.live slot true rest others dead;
            tiled = omega (arith, pool.tiled, ap length free, length-set b.live slot true, moved);
          },
          rw at refl,
          turns b.live slot true within,
          λ i. get_elem?-set b.slots slot i (new_page Fl) inside,
        )

  push_page-Allocates : b.free_slots ≡ [] → Allocates Fl b (push_page Fl b)
  unfolding push_page is_live
  push_page-Allocates free = elim (Bool-cases (length b.slots == b.max_pages)) [
    | inl full ↦ rw full (refl, ground (arith, pool.sized, pool.tiled, ap length free))
    | inr room ↦ rw room (
      record {
        sized = omega (
          arith,
          pool.sized,
          length-append b.live (true ∷ []),
          length-append b.slots (new_page Fl ∷ []),
        );
        bounded = ground (arith, pool.bounded, length-append b.slots (new_page Fl ∷ []));
        shaped =
            All-append IsShaped b.slots (new_page Fl ∷ []) pool.shaped (new_page-IsShaped Fl, tt);
        dead = AreDead-push b.live b.free_slots pool.dead;
        tiled = omega (
          arith,
          pool.tiled,
          length-append b.live (true ∷ []),
          sum_by-append (λ l. indicator l) b.live (true ∷ []),
        );
      },
      rw (get_elem?_past b.live (length b.slots) (omega (arith, pool.sized))) refl,
      (λ p. ap (λ o. unwrap_or o false) (get_elem?-push b.live true p.slot) ∙ pushed p.slot),
      λ i. get_elem?-push b.slots (new_page Fl) i,
    )
  ]

  -- On a well-formed pool, `allocate` never panics. It gives out a page that was not live and now is,
  -- with every entry of its matrices zero, leaves the liveness and the contents of every other page,
  -- and keeps the pool well formed; or it is out of pages, and then as many are live as the pool may
  -- have.
  pub allocate-Allocates : Allocates Fl b (allocate Fl b)
  unfolding allocate
  allocate-Allocates =
      let from : List ℕ → CpuResult (PageAllocation CpuPage × CpuKvBackend Fl.F32) =
        λ xs. elim xs [ slot ∷ rest ↦ reuse_page Fl slot rest b | [] ↦ push_page Fl b ] in
      elim (List-cases b.free_slots) [
        | inl empty ↦ subst (Allocates Fl b) (sym (ap from empty)) (push_page-Allocates empty)
        | inr (slot, rest, free) ↦
            subst (Allocates Fl b) (sym (ap from free)) (reuse_page-Allocates slot rest free)
      ]

-- What a release means: the page was live and is not, nothing else changes; or it was not live.
abbrev pub Frees :
    {F : Type 0} → CpuKvBackend F → CpuPage → Result CpuBackendError (CpuKvBackend F) → Type 0
Frees b p (ok b') =
    IsPooled b' × (is_live b p ≡ true) × Turns b p.slot false b' × (b'.slots ≡ b.slots)
Frees b p (err e) = (e ≡ stale_page p.slot) × (is_live b p ≡ false)
Frees b p panic = ⊥

live_at :
    {F : Type 0} (b : CpuKvBackend F) (p : CpuPage) {l : Bool}
    → get_elem? b.live p.slot ≡ some l
    → is_live b p ≡ l
unfolding is_live
live_at b p at = rw at refl

dead_past :
    {F : Type 0} (b : CpuKvBackend F) (p : CpuPage)
    → get_elem? b.live p.slot ≡ none
    → is_live b p ≡ false
unfolding is_live
dead_past b p missing = rw missing refl

-- On a well-formed pool, `release` never panics. A live page is live no more, the liveness of every
-- other page and all contents stay, and the pool stays well formed; a page that is not live is stale.
pub release-Frees :
    {F : Type 0} (p : CpuPage) (b : CpuKvBackend F) → IsPooled b → Frees b p (release p b)
unfolding release is_live
release-Frees p b pool = elim (Option-cases (get_elem? b.live p.slot)) [
  | inl missing ↦ rw missing (refl, dead_past b p missing)
  | inr (false, at) ↦ rw at (refl, live_at b p at)
  | inr (true, at) ↦
      let within = get_elem?-lt b.live p.slot at in
      let others = live-apart b.live p.slot b.free_slots at pool.dead in
      rw at (
        record {
          sized = omega (arith, pool.sized, length-set b.live p.slot false);
          bounded = pool.bounded;
          shaped = pool.shaped;
          dead = (
            get_elem?-set_self b.live p.slot false within,
            others,
            AreDead-set b.live p.slot false b.free_slots others pool.dead,
          );
          tiled = omega (
            arith,
            pool.tiled,
            length-set b.live p.slot false,
            sum_by-set (λ l. indicator l) b.live p.slot false at,
          );
        },
        live_at b p at,
        turns b.live p.slot false within,
        refl,
      )
]
