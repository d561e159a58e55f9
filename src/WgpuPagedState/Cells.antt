-- ===== src/WgpuPagedState/Cells.antt =====
-- examples/wgpu_paged_state.rs: which places of the slab the invocations of an append write.
use mathlib.Core.List.{Perm}
use mathlib.Core.List.Perm
use seqcache.Prelude.{
  ℕ, ◌+◌, ◌*◌, ◌/◌, ◌%◌, ◌^◌, ◌≤◌, ◌<◌, ◌≡◌, ◌≢◌, refl, sym, subst, ap, ◌∙◌, inl, inr, false,
  Bool-cases, some, List, length, get_elem?, get_elem?_within, All, All-get_elem?, leb, ◌==◌,
  ==_iff, arith,
}
use seqcache.PageSlots.{AreApart}
use seqcache.WgpuPagedState.Gpu.{page_tokens}
use seqcache.WgpuPagedState.Shader.{AppendParameters, write_paged_rows, store, run_invocations}
use seqcache.WgpuPagedState.Rows.{
  table_of, cell, launched, launched-mem, Apart-injective, Keeps, run-writes,
}

-- The parameters that `dispatch_append` writes.
abbrev pub append_of : ℕ → ℕ → AppendParameters
append_of start rows = record { start_position = start; rows = rows; page_tokens = page_tokens }

-- A page of the slab that `u32` addresses reach.
abbrev pub IsAddressed : ℕ → Type 0
IsAddressed slot = slot * page_tokens + page_tokens ≤ 2 ^ 32

module _ (slots : List ℕ) (past : ℕ → ℕ) where
  abbrev pub Backed : ℕ → Type 0
  Backed p =
      (s : ℕ) × (get_elem? slots (p / page_tokens) ≡ some s)
      × IsAddressed s
      × (cell (table_of slots past) p ≡ s * page_tokens + p % page_tokens)

  pub backed : (p : ℕ) → All IsAddressed slots → p < length slots * page_tokens → Backed p
  backed p small within =
      let (s, at) = get_elem?_within slots (p / page_tokens) (omega arith) in
      (s, at, All-get_elem? IsAddressed slots (p / page_tokens) small at, rw (at, table_of) refl)

  cell-injective :
      (p q : ℕ)
      → AreApart slots
      → Backed p
      → Backed q
      → cell (table_of slots past) p ≡ cell (table_of slots past) q
      → p ≡ q
  cell-injective p q apart (s, at, small, e) (t, at', small', e') h =
      let same : t ≡ s = omega arith in
      let page : p / page_tokens ≡ q / page_tokens =
        Apart-injective slots (p / page_tokens) (q / page_tokens) apart at (at' ∙ ap some same) in
      omega arith

  module _ {F : Type 0} (f32 : ℕ → F) (start rows : ℕ) where
    writes :
        (i : ℕ)
        → i < rows
        → start + rows < 2 ^ 32
        → Backed (start + i)
        → write_paged_rows f32 (table_of slots past) (append_of start rows) i
          ≡ some (cell (table_of slots past) (start + i), f32 (start + i + 1))
    unfolding write_paged_rows
    writes i h fits (s, at, small, e) =
        let skip : leb rows i ≡ false = ground arith in
        let here : (start + i) % 2 ^ 32 ≡ start + i = omega arith in
        let next : (start + i + 1) % 2 ^ 32 ≡ start + i + 1 = omega arith in
        let base : s * 4 % 2 ^ 32 ≡ s * 4 = omega arith in
        let whole : (s * 4 + (start + i) % 4) % 2 ^ 32 ≡ s * 4 + (start + i) % 4 = omega arith in
        rw (skip, here, next, at, table_of, base, whole) refl

    -- What an invocation leaves at the place of a position.
    pub cell-Keeps :
        (p : ℕ) (v : F)
        → AreApart slots
        → All IsAddressed slots
        → start + rows < 2 ^ 32
        → start + rows ≤ length slots * page_tokens
        → Backed p
        → (start ≤ p → p < start + rows → v ≡ f32 (p + 1))
        → (i : ℕ)
        → Keeps f32 (table_of slots past) (append_of start rows) (cell (table_of slots past) p) v i
    unfolding write_paged_rows store
    cell-Keeps p v apart small fits covered here value i slab h = elim (Bool-cases (leb rows i)) [
      | inl past_end ↦ rw past_end h
      | inr inside ↦
          let low : i < rows = ground arith in
          let there = backed (start + i) small (omega arith) in
          let at = cell (table_of slots past) p in
          let at' = cell (table_of slots past) (start + i) in
          rw (writes i low fits there) (elim (Bool-cases (at == at')) [
            | inl same ↦
                let hit : p ≡ start + i =
                  cell-injective p (start + i) apart here there ((==_iff at at').0 same) in
                rw same (subst (λ n. f32 (n + 1) ≡ v) hit (sym (value (omega arith) (omega arith))))
            | inr other ↦ rw other h
          ])
    ]

    -- A page that the table does not have.
    pub outside-Keeps :
        (at : ℕ) (v : F)
        → All (λ s. at / page_tokens ≢ s) slots
        → All IsAddressed slots
        → start + rows < 2 ^ 32
        → start + rows ≤ length slots * page_tokens
        → (i : ℕ) → Keeps f32 (table_of slots past) (append_of start rows) at v i
    unfolding write_paged_rows store
    outside-Keeps at v missing small fits covered i slab h = elim (Bool-cases (leb rows i)) [
      | inl past_end ↦ rw past_end h
      | inr inside ↦
          let low : i < rows = ground arith in
          let there = backed (start + i) small (omega arith) in
          let other =
            All-get_elem? (λ s. at / page_tokens ≢ s) slots ((start + i) / page_tokens) missing
              there.1 in
          rw (writes i low fits there)
            (elim (Bool-cases (at == cell (table_of slots past) (start + i))) [
              | inl same ↦ absurd (other (quotient there ((==_iff at _).0 same)))
              | inr differs ↦ rw differs h
            ])
    ]
      where
        quotient :
            (there : Backed (start + i))
            → at ≡ cell (table_of slots past) (start + i)
            → at / page_tokens ≡ there.0
        quotient (s, found, small', e) same = omega arith

    row_written :
        (i : ℕ) (slab : ℕ → F)
        → i < rows
        → start + rows < 2 ^ 32
        → Backed (start + i)
        → store
            (write_paged_rows f32 (table_of slots past) (append_of start rows) i)
            slab
            (cell (table_of slots past) (start + i))
          ≡ f32 (start + i + 1)
    unfolding store
    row_written i slab low fits there =
        let at = cell (table_of slots past) (start + i) in
        rw (writes i low fits there, (==_iff at at).1 refl) refl

    pub read_inside :
        (i : ℕ) (order : List ℕ) (slab : ℕ → F)
        → AreApart slots
        → All IsAddressed slots
        → start + rows < 2 ^ 32
        → start + rows ≤ length slots * page_tokens
        → Perm order (launched rows)
        → i < rows
        → run_invocations f32
            (table_of slots past)
            (append_of start rows)
            order
            slab
            (cell (table_of slots past) (start + i))
          ≡ f32 (start + i + 1)
    read_inside i order slab apart small fits covered ran low =
        let there = backed (start + i) small (omega arith) in
        run-writes f32 (table_of slots past) (append_of start rows)
          (cell (table_of slots past) (start + i)) (f32 (start + i + 1)) i
          (cell-Keeps (start + i) (f32 (start + i + 1)) apart small fits covered there
            (λ _ _. refl))
          (λ before. row_written i before low fits there) order slab
          ((Perm.mem_iff ran).1 (launched-mem rows i (omega arith) low))
