-- ===== src/WgpuPagedState/Dispatched.antt =====
-- examples/wgpu_paged_state.rs: which appends `dispatch_append` accepts.
use seqcache.Prelude.{
  ℕ, ◌+◌, ◌≤◌, ◌<◌, ◌≡◌, refl, ap, subst, ◌∙◌, true, ◌||◌, Bool-cases, Option-cases, some, inl, inr,
  List, [], ◌∷◌, get_elem?, All, sum_by, ltb, leb, ◌==◌, ==_iff, ◌/◌, arith,
}
use seqcache.Word.{wrapped, u32_max, usize_max}
use seqcache.Error.{Result, ok, err, panic, Result-cases}
use seqcache.Cache.Records.{AppendSegment}
use seqcache.WgpuPagedState.Gpu.{Wgpu, page_tokens}
use seqcache.WgpuPagedState.Pool.{WgpuPage, WgpuPageBackend, WgpuResult, is_live, validate_page}
use seqcache.WgpuPagedState.Table.{WgpuPageTable}
use seqcache.WgpuPagedState.Dispatch.{
  Destination, covered_rows, check_destinations, check_dispatch, submit_append, dispatch_append,
}
use seqcache.WgpuPagedState.Kept.{SameSlots}

abbrev pub rows_of : List Destination → ℕ
rows_of = sum_by (λ d. d.1.rows)

-- What the `try_fold` gives, if it does not overflow.
abbrev Counts : {E : Type 0} → ℕ → Result E ℕ → Type 0
Counts n (ok m) = m ≡ n
Counts n (err e) = Unit {0}
Counts n panic = ⊥

covered_rows-Counts :
    (M : Type 0) (total : ℕ) (ds : List Destination)
    → Counts (total + rows_of ds) (covered_rows {M = M} total ds)
unfolding covered_rows
covered_rows-Counts M total [] = omega arith
covered_rows-Counts M total ((p, s) ∷ ds) = elim (Bool-cases (leb (total + s.rows) usize_max)) [
  | inl fits ↦ rw fits (
      subst (λ n. Counts n (covered_rows {M = M} (total + s.rows) ds)) (omega arith)
        (covered_rows-Counts M (total + s.rows) ds))
  | inr past ↦ rw past tt
]

module _ {G : Wgpu} where
  -- Every page of the append is live, and the published table has it where its segment begins.
  abbrev pub AreBound : WgpuPageBackend G → WgpuPageTable G → ℕ → List Destination → Type 0
  AreBound b table start = All (λ d.
      (is_live b d.0 ≡ true)
      × (get_elem? table.slots (wrapped (start + d.1.input_offset) / page_tokens) ≡ some d.0.slot))

  abbrev Binds :
      WgpuPageBackend G → WgpuPageTable G → ℕ → List Destination → WgpuResult G (Unit {0}) → Type 0
  Binds b table start ds (ok _) = AreBound b table start ds
  Binds b table start ds (err e) = Unit {0}
  Binds b table start ds panic = ⊥

  bound_more :
      (b : WgpuPageBackend G) (table : WgpuPageTable G) (start : ℕ) (p : WgpuPage)
      (s : AppendSegment) (ds : List Destination) (r : WgpuResult G (Unit {0}))
      → is_live b p ≡ true
      → get_elem? table.slots (wrapped (start + s.input_offset) / page_tokens) ≡ some p.slot
      → Binds b table start ds r
      → Binds b table start ((p, s) ∷ ds) r
  bound_more b table start p s ds (ok _) live at h = ((live, at), h)
  bound_more b table start p s ds (err e) live at h = tt
  bound_more b table start p s ds panic live at h = h

  check_destinations-Binds :
      (b : WgpuPageBackend G) (table : WgpuPageTable G) (start : ℕ) (ds : List Destination)
      → Binds b table start ds (check_destinations b table start ds)
  unfolding check_destinations validate_page
  check_destinations-Binds b table start [] = tt
  check_destinations-Binds b table start ((p, s) ∷ ds) =
      let page = wrapped (start + s.input_offset) / page_tokens in
      elim (Bool-cases (is_live b p)) [
        | inr dead ↦ rw dead tt
        | inl live ↦ elim (Option-cases (get_elem? table.slots page)) [
          | inl missing ↦ rw (live, missing) tt
          | inr (slot, at) ↦ elim (Bool-cases (slot == p.slot)) [
            | inr other ↦ rw (live, at, other) tt
            | inl same ↦
                rw (live, at, same)
                  (bound_more b table start p s ds (check_destinations b table start ds) live
                    (at ∙ ap some ((==_iff slot p.slot).0 same))
                    (check_destinations-Binds b table start ds))
          ]
        ]
      ]

  -- What the checks accept.
  abbrev Checks :
      WgpuPageBackend G
      → WgpuPageTable G
      → List Destination
      → ℕ
      → ℕ
      → WgpuResult G (Unit {0})
      → Type 0
  Checks b table ds start rows (ok _) =
      (0 < rows)
      × (rows ≤ u32_max)
      × (start ≤ u32_max)
      × (rows_of ds ≡ rows)
      × AreBound b table start ds
  Checks b table ds start rows (err e) = Unit {0}
  Checks b table ds start rows panic = ⊥

  checked_more :
      (b : WgpuPageBackend G) (table : WgpuPageTable G) (ds : List Destination) (start rows : ℕ)
      (r : WgpuResult G (Unit {0}))
      → 0 < rows
      → rows ≤ u32_max
      → start ≤ u32_max
      → rows_of ds ≡ rows
      → Binds b table start ds r
      → Checks b table ds start rows r
  checked_more b table ds start rows (ok _) pos fits fits' same h = (pos, fits, fits', same, h)
  checked_more b table ds start rows (err e) pos fits fits' same h = tt
  checked_more b table ds start rows panic pos fits fits' same h = h

  check_dispatch-Checks :
      (b : WgpuPageBackend G) (table : WgpuPageTable G) (ds : List Destination) (start rows : ℕ)
      → Checks b table ds start rows (check_dispatch b table ds start rows)
  unfolding check_dispatch
  check_dispatch-Checks b table ds start rows =
      let past = rows == 0 || ltb u32_max rows || ltb u32_max start in
      elim (Bool-cases past) [
        | inl bad ↦ rw bad tt
        | inr good ↦ elim (Result-cases (covered_rows {M = G.Message} 0 ds)) [
          | inr (inl (e, over)) ↦ rw (good, over) tt
          | inr (inr stuck) ↦
              absurd (subst (Counts (0 + rows_of ds)) stuck (covered_rows-Counts G.Message 0 ds))
          | inl (n, counted) ↦
              let exact =
                subst (Counts (0 + rows_of ds)) counted (covered_rows-Counts G.Message 0 ds) in
              elim (Bool-cases (n == rows)) [
                | inr other ↦ rw (good, counted, other) tt
                | inl same ↦
                    let total : n ≡ rows = (==_iff n rows).0 same in
                    rw (good, counted, same)
                      (checked_more b table ds start rows (check_destinations b table start ds)
                        (ground arith) (ground arith) (ground arith) (omega (arith, exact))
                        (check_destinations-Binds b table start ds))
              ]
        ]
      ]

  -- What a dispatch means.
  abbrev pub Dispatches :
      WgpuPageBackend G
      → WgpuPageTable G
      → List Destination
      → ℕ
      → ℕ
      → WgpuResult G (Unit {0}) × WgpuPageBackend G
      → Type 0
  Dispatches b table ds start rows (ok _, b') =
      (0 < rows)
      × (rows ≤ u32_max)
      × (start ≤ u32_max)
      × (rows_of ds ≡ rows)
      × AreBound b table start ds
      × SameSlots b b'
  Dispatches b table ds start rows (err e, b') = b' ≡ b
  Dispatches b table ds start rows (panic, b') = ⊥

  answered :
      (b : WgpuPageBackend G) (table : WgpuPageTable G) (ds : List Destination) (start rows : ℕ)
      (r : WgpuResult G (Unit {0}))
      → Checks b table ds start rows r
      → Dispatches b table ds start rows (elim r [
        | ok _ ↦ (ok tt, submit_append table start rows b)
        | err e ↦ (err e, b)
        | panic ↦ (panic, b)
      ])
  unfolding submit_append
  answered b table ds start rows (ok _) (pos, fits, fits', same, bound) =
      (pos, fits, fits', same, bound, (refl, refl))
  answered b table ds start rows (err e) h = refl
  answered b table ds start rows panic h = h

  -- dispatch_append never panics. It accepts an append only if it has a row, its start and its rows fit
  -- in 32 bits, its segments have exactly its rows, and every page of it is live and stands in the
  -- published table where its segment begins; the live and the free slots stay. If it refuses, the
  -- backend is what it was, and nothing was submitted.
  pub dispatch_append-Dispatches :
      (b : WgpuPageBackend G) (table : WgpuPageTable G) (ds : List Destination) (start rows : ℕ)
      → Dispatches b table ds start rows (dispatch_append table ds start rows b)
  unfolding dispatch_append
  dispatch_append-Dispatches b table ds start rows =
      answered b table ds start rows (check_dispatch b table ds start rows)
        (check_dispatch-Checks b table ds start rows)
