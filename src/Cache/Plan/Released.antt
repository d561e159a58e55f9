-- ===== src/Cache/Plan/Released.antt =====
-- The pages that become free in the rounds of `plan_evictions` over the pages of an entry.
use native.Mathlib.Nat.{zero-add}
use seqcache.Prelude.{
  ℕ, ◌+◌, ◌*◌, ◌≡◌, refl, ap, ◌∙◌, subst, Bool, false, ◌&&◌, Option, none, some, List, [], ◌∷◌,
  arith, indicator, any_of, ltb, leb, ◌==◌, Bool-cases, Option-cases, inl, inr,
}
use seqcache.Error.{ok, >>=-eq-ok}
use seqcache.Arena.{Handle, handle_eq, resolve}
use seqcache.Backend.{Runtime}
use seqcache.Cache.Records.{SequenceCache, PageRecord}
use seqcache.Cache.Pages.{page_record}
use seqcache.Cache.Plan.{Plan, bump, count_of, plan_page, plan_pages}
use seqcache.Cache.Plan.Distinct.{
  occurrences, count_distinct, count_of-bump, absent-occurrences, count_distinct-off,
  count_distinct-at,
}

-- The totals go down by `pages` pages of the given size and by `bytes` bytes of snapshots.
pub record IsFreed (page_bytes pages bytes : ℕ) (p q : Plan) : Type 0 where
  pub pages_left : q.pages + pages ≡ p.pages
  pub snapshots_left : q.snapshots + bytes ≡ p.snapshots
  pub total_left : q.total + bytes + pages * page_bytes ≡ p.total

abbrev pub reverse_onto : List Handle → List Handle → List Handle
reverse_onto [] s = s
reverse_onto (id ∷ ids) s = reverse_onto ids (id ∷ s)

-- The plan has counted the releases of these pages.
abbrev pub HasCounted : Plan → List Handle → Type 0
HasCounted p s = (j : Handle) → count_of j p.removed_page_refs ≡ occurrences j s

module _ {R : Runtime} (c : SequenceCache R) where
  -- No sequence holds the page, and `n` releases give back all references that prefixes have to it.
  abbrev pub is_released : ℕ → Option (PageRecord R.Page) → Bool
  is_released n none = false
  is_released n (some r) = r.active_refs == 0 && ltb 0 r.prefix_refs && leb r.prefix_refs n

  abbrev pub is_free_after : List Handle → Handle → Bool
  is_free_after s id =
      R.retirement_is_immediate c.backend && is_released (occurrences id s) (resolve c.pages id)

  -- How many different pages of a list are free after one reference is released for each place of the
  -- list.
  abbrev pub freed_by : List Handle → ℕ
  freed_by s = count_distinct (is_free_after s) s

  -- One more release frees the page if the releases are now as many as its references.
  plan_page-released :
      (id : Handle) (k : ℕ) (p : Plan) {q : Plan}
      → count_of id (bump id p.removed_page_refs) ≡ k + 1
      → plan_page c id p ≡ ok q
      → (n : ℕ) × IsFreed c.page_bytes n 0 p q
        × (q.removed_page_refs ≡ bump id p.removed_page_refs)
        × (indicator
              (R.retirement_is_immediate c.backend && is_released (k + 1) (resolve c.pages id))
            ≡ n
              + indicator
                  (R.retirement_is_immediate c.backend && is_released k (resolve c.pages id)))
  unfolding plan_page page_record
  plan_page-released id k p counted h = elim (Option-cases (resolve c.pages id)) [
    | inl missing ↦ absurd (cc (rw missing at h))
    | inr (r, at) ↦
        elim (Bool-cases (
          R.retirement_is_immediate c.backend
          && r.active_refs == 0
          && count_of id (bump id p.removed_page_refs) == r.prefix_refs)) [
            | inl due ↦ (1, ground arith, ground arith, rw at (ground arith))
            | inr kept ↦ (0, ground arith, ground arith, rw at (ground arith))
          ]
  ]

  freed_by-more :
      (id : Handle) (s : List Handle) (n : ℕ)
      → indicator (is_free_after (id ∷ s) id)
        ≡ n
          + indicator (
              R.retirement_is_immediate c.backend
              && is_released (occurrences id s) (resolve c.pages id))
      → freed_by (id ∷ s) ≡ n + freed_by s
  freed_by-more id s n step =
      let off : (j : Handle)
          → handle_eq j id ≡ false
          → is_free_after s j ≡ is_free_after (id ∷ s) j =
        λ j apart. rw (apart, zero-add) refl in
      elim (Bool-cases (any_of (handle_eq id) s)) [
        | inl again ↦
            let moved =
              count_distinct-at (is_free_after s) (is_free_after (id ∷ s)) id off s again in
            rw again (omega (arith, moved, step))
        | inr once ↦
            let kept =
              count_distinct-off (is_free_after s) (is_free_after (id ∷ s)) id off s once in
            let none_yet = absent-occurrences id s once in
            rw once (ground (arith, kept, none_yet, step))
      ]

  pub plan_pages-IsFreed :
      (ids s : List Handle) (p : Plan) {q : Plan}
      → HasCounted p s
      → plan_pages c ids p ≡ ok q
      → (n : ℕ) × IsFreed c.page_bytes n 0 p q
        × HasCounted q (reverse_onto ids s)
        × (freed_by (reverse_onto ids s) ≡ n + freed_by s)
  unfolding plan_pages
  plan_pages-IsFreed [] s p {q} counted h =
      let same : p ≡ q = cc h in
      (0, ground arith, subst (λ x. HasCounted x s) same counted, omega arith)
  plan_pages-IsFreed (id ∷ ids) s p counted h =
      let (p1, one, rest) = >>=-eq-ok (plan_page c id p) (plan_pages c ids) h in
      let self : indicator (handle_eq id id) ≡ 1 = ground arith in
      let (n, one_freed, removed, step) =
        plan_page-released id (occurrences id s) p
          (omega (arith, count_of-bump id id p.removed_page_refs, counted id, self)) one in
      let counted1 : HasCounted p1 (id ∷ s) = λ j.
        ap (count_of j) removed
        ∙ count_of-bump j id p.removed_page_refs
        ∙ ap (λ n. indicator (handle_eq j id) + n) (counted j) in
      let (m, freed, counted', total) = plan_pages-IsFreed ids (id ∷ s) p1 counted1 rest in
      let again : occurrences id (id ∷ s) ≡ occurrences id s + 1 = omega (arith, self) in
      let more = freed_by-more id s n (
        ap
          (λ k.
            indicator (R.retirement_is_immediate c.backend && is_released k (resolve c.pages id)))
          again
        ∙ step) in
      (n + m, ground arith, counted', omega (arith, total, more))
