-- ===== src/WgpuPagedState/Written.antt =====
-- examples/wgpu_paged_state.rs: one dispatch writes an append through the page table, and no other
-- row.
use mathlib.Core.List.{Perm}
use seqcache.Prelude.{
  ℕ, ◌+◌, ◌*◌, ◌-◌, ◌/◌, ◌^◌, ◌≤◌, ◌<◌, ◌≡◌, ◌⊎◌, refl, subst, inl, inr, true, false, Bool-cases,
  ◌&&◌, List, length, All, ltb, leb, if◌then◌else◌, arith,
}
use seqcache.PageSlots.{AreApart, holds, holds-ne}
use seqcache.WgpuPagedState.Gpu.{page_tokens}
use seqcache.WgpuPagedState.Shader.{run_invocations}
use seqcache.WgpuPagedState.Rows.{table_of, cell, launched, run-Keeps}
use seqcache.WgpuPagedState.Cells.{
  append_of, IsAddressed, backed, cell-Keeps, outside-Keeps, read_inside,
}

-- A dispatch of at least `rows` invocations, which run in any order, on a table whose slots are
-- distinct and within the reach of `u32` and which covers the append: a position of the append reads
-- as one more than itself, every other position of the table reads as before, and so does the slab
-- outside the pages of the table.
pub run_invocations-launched :
    {F : Type 0} (f32 : ℕ → F) (slots : List ℕ) (past : ℕ → ℕ) (start rows : ℕ) (order : List ℕ)
    (slab : ℕ → F) (p at : ℕ)
    → AreApart slots
    → All IsAddressed slots
    → start + rows < 2 ^ 32
    → start + rows ≤ length slots * page_tokens
    → Perm order (launched rows)
    → p < length slots * page_tokens
    → holds (at / page_tokens) slots ≡ false
    → let after = run_invocations f32 (table_of slots past) (append_of start rows) order slab in
      (after (cell (table_of slots past) p) ≡ (
        if leb start p && ltb p (start + rows)
        then f32 (p + 1)
        else slab (cell (table_of slots past) p)))
      × (after at ≡ slab at)
run_invocations-launched f32 slots past start rows order slab p at apart small fits covered ran
      within elsewhere =
    (read (Bool-cases (leb start p && ltb p (start + rows))), untouched)
  where
    untouched :
        run_invocations f32 (table_of slots past) (append_of start rows) order slab at ≡ slab at
    untouched =
        run-Keeps f32 (table_of slots past) (append_of start rows) at (slab at)
          (outside-Keeps slots past f32 start rows at (slab at)
            (holds-ne (at / page_tokens) slots elsewhere) small fits covered)
          order slab refl

    read :
        ((leb start p && ltb p (start + rows)) ≡ true)
          ⊎ ((leb start p && ltb p (start + rows)) ≡ false)
        → run_invocations f32
            (table_of slots past)
            (append_of start rows)
            order
            slab
            (cell (table_of slots past) p)
          ≡ (if leb start p && ltb p (start + rows)
              then f32 (p + 1)
              else slab (cell (table_of slots past) p))
    read (inl inside) =
        let low : start ≤ p = ground arith in
        let high : p < start + rows = ground arith in
        let same : start + (p - start) ≡ p = omega arith in
        rw inside (
          subst
            (λ q.
              run_invocations f32 (table_of slots past) (append_of start rows) order slab
                (cell (table_of slots past) q)
              ≡ f32 (q + 1))
            same
            (read_inside slots past f32 start rows (p - start) order slab apart small fits covered
              ran (omega arith)))
    read (inr outside) =
        let before = slab (cell (table_of slots past) p) in
        rw outside (
          run-Keeps f32 (table_of slots past) (append_of start rows) (cell (table_of slots past) p)
            before
            (cell-Keeps slots past f32 start rows p before apart small fits covered
              (backed slots past p small within) (λ low high. absurd (ground arith)))
            order slab refl)
