-- ===== src/WgpuPagedState/Rows.antt =====
-- examples/wgpu_paged_state.rs: the rows that one dispatch of `write_paged_rows` leaves in the slab,
-- seen through the page table, in whatever order its invocations run.
use mathlib.Core.List.{
  Mem, Mem-prop, not-mem-nil, eq-or-mem_of_mem-cons, mem-cons_self, mem-cons_of_mem,
}
use mathlib.Core.Logic.{∥∥₁_elim}
use seqcache.Prelude.{
  ℕ, zero, suc, ◌+◌, ◌*◌, ◌/◌, ◌%◌, ◌^◌, ◌≤◌, ◌<◌, ◌≡◌, ◌≢◌, refl, sym, subst, ap, inl, inr,
  Bool-cases, none, some, List, [], ◌∷◌, get_elem?, All-get_elem?, ◌==◌, ==_iff, arith,
}
use seqcache.PageSlots.{AreApart}
use seqcache.WgpuPagedState.Gpu.{page_tokens, workgroup_size}
use seqcache.WgpuPagedState.Pool.{slots_from}
use seqcache.WgpuPagedState.Table.{div_ceil}
use seqcache.WgpuPagedState.Shader.{AppendParameters, write_paged_rows, store, run_invocations}

-- The table as the shader reads it: past its end, what the device has there.
abbrev pub table_of : List ℕ → (ℕ → ℕ) → ℕ → ℕ
table_of slots past i = elim (get_elem? slots i) [ none ↦ past i | some s ↦ s ]

-- The place of a position in the slab.
abbrev pub cell : (ℕ → ℕ) → ℕ → ℕ
cell table position = table (position / page_tokens) * page_tokens + position % page_tokens

-- The invocations that `dispatch_append` launches.
abbrev pub launched : ℕ → List ℕ
launched rows = slots_from 0 (div_ceil rows workgroup_size % 2 ^ 32 * workgroup_size)

pub Apart-injective :
    (slots : List ℕ) (i j : ℕ) {s : ℕ}
    → AreApart slots
    → get_elem? slots i ≡ some s
    → get_elem? slots j ≡ some s
    → i ≡ j
Apart-injective [] i j apart at at' = absurd (cc at)
Apart-injective (x ∷ xs) zero zero (others, apart) at at' = refl
Apart-injective (x ∷ xs) zero (suc j) {s} (others, apart) at at' =
    let same : x ≡ s = cc at in absurd (All-get_elem? (λ y. x ≢ y) xs j others at' same)
Apart-injective (x ∷ xs) (suc i) zero {s} (others, apart) at at' =
    let same : x ≡ s = cc at' in absurd (All-get_elem? (λ y. x ≢ y) xs i others at same)
Apart-injective (x ∷ xs) (suc i) (suc j) (others, apart) at at' =
    ap suc (Apart-injective xs i j apart at at')

slots_from-mem : (first n i : ℕ) → first ≤ i → i < first + n → Mem i (slots_from first n)
slots_from-mem first zero i low high = absurd (omega arith)
slots_from-mem first (suc n) i low high = elim (Bool-cases (i == first)) [
  | inl e ↦ subst (λ x. Mem x (slots_from first (suc n))) (sym ((==_iff i first).0 e)) mem-cons_self
  | inr e ↦ mem-cons_of_mem first (slots_from-mem (first + 1) n i (ground arith) (ground arith))
]

pub launched-mem : (rows i : ℕ) → rows < 2 ^ 32 → i < rows → Mem i (launched rows)
launched-mem rows i fits h =
    slots_from-mem 0 (div_ceil rows workgroup_size % 2 ^ 32 * workgroup_size) i (omega arith)
      (omega arith)

module _ {F : Type 0} (f32 : ℕ → F) (table : ℕ → ℕ) (parameters : AppendParameters) where
  -- An invocation leaves this value where it is.
  abbrev pub Keeps : ℕ → F → ℕ → Type 0
  Keeps at v i =
      (slab : ℕ → F) → slab at ≡ v → store (write_paged_rows f32 table parameters i) slab at ≡ v

  pub run-Keeps :
      (at : ℕ) (v : F)
      → ((i : ℕ) → Keeps at v i)
      → (ids : List ℕ) (slab : ℕ → F) → slab at ≡ v
      → run_invocations f32 table parameters ids slab at ≡ v
  unfolding run_invocations
  run-Keeps at v keeps [] slab h = h
  run-Keeps at v keeps (i ∷ is) slab h =
      run-Keeps at v keeps is (store (write_paged_rows f32 table parameters i) slab)
        (keeps i slab h)

  pub run-writes :
      (at : ℕ) (v : F) (i : ℕ)
      → ((j : ℕ) → Keeps at v j)
      → ((slab : ℕ → F) → store (write_paged_rows f32 table parameters i) slab at ≡ v)
      → (ids : List ℕ) (slab : ℕ → F) → Mem i ids
      → run_invocations f32 table parameters ids slab at ≡ v
  unfolding run_invocations
  run-writes at v i keeps writes [] slab m = absurd (not-mem-nil m)
  run-writes at v i keeps writes (j ∷ js) slab m = elim (Bool-cases (i == j)) [
    | inl e ↦ run-Keeps at v keeps js (store (write_paged_rows f32 table parameters j) slab) (
        subst (λ k. store (write_paged_rows f32 table parameters k) slab at ≡ v) ((==_iff i j).0 e)
          (writes slab))
    | inr e ↦
        let later =
          ∥∥₁_elim (eq-or-mem_of_mem-cons m) Mem-prop
            (λ c. elim c [ inl same ↦ absurd (ground arith) | inr there ↦ there ]) in
        run-writes at v i keeps writes js (store (write_paged_rows f32 table parameters j) slab)
          later
  ]
