-- ===== src/Cache/Plan/Freed.antt =====
-- What a plan of evictions frees: the totals after the removal of its entries, from those before.
use seqcache.Prelude.{
  ℕ, ◌+◌, ◌++◌, length, ◌≤◌, ◌≡◌, ap, ◌∙◌, subst, true, Option, none, some, List, [], ◌∷◌, arith,
  get_key, sum_by, unwrap_or,
}
use seqcache.Word.{usize_max, wrapping_pred}
use seqcache.Error.{ok, expect, ◌>>=◌, >>=-eq-ok}
use seqcache.Arena.{Handle}
use seqcache.Backend.{Runtime}
use seqcache.Cache.Records.{SequenceCache, PrefixEntry}
use seqcache.Cache.Plan.{
  Limits, Plan, PlanRequest, fits, limits_of, initial_plan, count_of, plan_page, plan_pages,
  plan_snapshot, plan_entry, plan_evictions,
}
use seqcache.Cache.Plan.Released.{IsFreed, HasCounted, reverse_onto, freed_by, plan_pages-IsFreed}
use seqcache.Cache.Plan.Bounded.{IsPrefixOf, evictable, remove_all, plan_evictions-fits}

abbrev pub entry_bytes : {K S : Type 0} → Option (PrefixEntry K S) → ℕ
entry_bytes none = 0
entry_bytes (some e) = e.snapshot_bytes

-- `entries -= 1` for each of some entries.
abbrev pub entries_after : List ℕ → ℕ → ℕ
entries_after [] n = n
entries_after (_ ∷ ids) n = entries_after ids (wrapping_pred n)

plan_snapshot-IsFreed :
    {E K S : Type 0} (page_bytes : ℕ) (e : PrefixEntry K S) (p : Plan) {q : Plan}
    → plan_snapshot {E = E} e p ≡ ok q
    → IsFreed page_bytes 0 e.snapshot_bytes p q × (q.removed_page_refs ≡ p.removed_page_refs)
unfolding plan_snapshot
plan_snapshot-IsFreed page_bytes e p h = (ground arith, ground arith)

module _ {R : Runtime} (c : SequenceCache R) where
  -- The snapshot bytes of some entries.
  abbrev pub bytes_of : List ℕ → ℕ
  bytes_of = sum_by (λ id. entry_bytes (get_key id c.prefixes))

  plan_entry-IsFreed :
      (id : ℕ) (e : PrefixEntry R.radix.Key R.Snapshot) (s : List Handle) (p : Plan) {q : Plan}
      → HasCounted p s
      → plan_entry c id e p ≡ ok q
      → (n : ℕ) × IsFreed c.page_bytes n e.snapshot_bytes p q
        × HasCounted q (reverse_onto e.pages s)
        × (freed_by c (reverse_onto e.pages s) ≡ n + freed_by c s)
  unfolding plan_entry
  plan_entry-IsFreed id e s p {q} counted h =
      let (p1, snapshot, h1) =
        >>=-eq-ok (plan_snapshot {E = R.BackendError} e p)
          (λ p1. plan_pages c e.pages p1 >>= λ p2. ok (record p2 { chosen = p2.chosen ++ id ∷ [] }))
          h in
      let (p2, paged, h2) =
        >>=-eq-ok (plan_pages c e.pages p1) (λ p2. ok (record p2 { chosen = p2.chosen ++ id ∷ [] }))
          h1 in
      let (first, same) = plan_snapshot-IsFreed c.page_bytes e p snapshot in
      let counted1 : HasCounted p1 s = λ j. ap (count_of j) same ∙ counted j in
      let (n, later, counted2, total) = plan_pages-IsFreed c e.pages s p1 counted1 paged in
      let kept : q.removed_page_refs ≡ p2.removed_page_refs = ground arith in
      (n, ground arith, (λ j. ap (count_of j) kept ∙ counted2 j), total)

  abbrev pub entry_pages : Option (PrefixEntry R.radix.Key R.Snapshot) → List Handle
  entry_pages none = []
  entry_pages (some e) = e.pages

  -- The pages of some entries, in front of others. The last page comes first.
  abbrev pub pages_onto : List ℕ → List Handle → List Handle
  pages_onto [] s = s
  pages_onto (id ∷ ids) s = pages_onto ids (reverse_onto (entry_pages (get_key id c.prefixes)) s)

  remove_all-IsFreed :
      (ids : List ℕ) (s : List Handle) (p : Plan) {q : Plan}
      → HasCounted p s
      → remove_all c ids p ≡ ok q
      → (n : ℕ) × IsFreed c.page_bytes n (bytes_of ids) p q
        × (freed_by c (pages_onto ids s) ≡ n + freed_by c s)
  unfolding remove_all
  remove_all-IsFreed [] s p counted h = (0, ground arith, omega arith)
  remove_all-IsFreed (id ∷ ids) s p {q} counted h =
      let (e, found, h1) =
        >>=-eq-ok (expect (get_key id c.prefixes))
          (λ e. plan_entry c id e p >>= λ p'. remove_all c ids p') h in
      let (p', removed, h2) = >>=-eq-ok (plan_entry c id e p) (remove_all c ids) h1 in
      let (m, first, counted', before) = plan_entry-IsFreed id e s p counted removed in
      let (n, later, total) = remove_all-IsFreed ids (reverse_onto e.pages s) p' counted' h2 in
      let here : get_key id c.prefixes ≡ some e = ground arith in
      rw here (m + n, omega arith, omega (arith, total, before))

  plan_pages-entries :
      (ids : List Handle) (p : Plan) {q : Plan} → plan_pages c ids p ≡ ok q → q.entries ≡ p.entries
  unfolding plan_pages plan_page
  plan_pages-entries [] p h = ground arith
  plan_pages-entries (id ∷ ids) p h =
      let (p1, one, rest) = >>=-eq-ok (plan_page c id p) (plan_pages c ids) h in
      let later = plan_pages-entries ids p1 rest in ground arith

  plan_entry-entries :
      (id : ℕ) (e : PrefixEntry R.radix.Key R.Snapshot) (p : Plan) {q : Plan}
      → plan_entry c id e p ≡ ok q
      → q.entries ≡ wrapping_pred p.entries
  unfolding plan_entry plan_snapshot
  plan_entry-entries id e p h =
      let (p1, snapshot, h1) =
        >>=-eq-ok (plan_snapshot {E = R.BackendError} e p)
          (λ p1. plan_pages c e.pages p1 >>= λ p2. ok (record p2 { chosen = p2.chosen ++ id ∷ [] }))
          h in
      let (p2, paged, h2) =
        >>=-eq-ok (plan_pages c e.pages p1) (λ p2. ok (record p2 { chosen = p2.chosen ++ id ∷ [] }))
          h1 in
      let kept = plan_pages-entries e.pages p1 paged in ground arith

  remove_all-entries :
      (ids : List ℕ) (p : Plan) {q : Plan}
      → remove_all c ids p ≡ ok q
      → q.entries ≡ entries_after ids p.entries
  unfolding remove_all
  remove_all-entries [] p h = ground arith
  remove_all-entries (id ∷ ids) p h =
      let (e, found, h1) =
        >>=-eq-ok (expect (get_key id c.prefixes))
          (λ e. plan_entry c id e p >>= λ p'. remove_all c ids p') h in
      let (p', removed, h2) = >>=-eq-ok (plan_entry c id e p) (remove_all c ids) h1 in
      remove_all-entries ids p' h2 ∙ ap (entries_after ids) (plan_entry-entries id e p removed)

  -- The totals of the cache with what the request adds.
  abbrev pub requested : PlanRequest → Plan
  requested q = record {
    total = c.stats.total_managed_bytes + q.extra_bytes;
    pages = c.stats.resident_pages + c.stats.reserved_pages + q.extra_pages;
    snapshots = unwrap_or q.target_snapshot_bytes c.stats.retained_snapshot_bytes;
    entries = unwrap_or q.target_entry_count (length c.prefixes);
    removed_page_refs = [];
    chosen = [];
  }

  initial_plan-requested : (q : PlanRequest) {p : Plan} → initial_plan c q ≡ ok p → p ≡ requested q
  unfolding initial_plan
  initial_plan-requested q h = ground arith

  fits-bounds :
      (l : Limits) (p : Plan)
      → fits l p ≡ true
      → (p.total ≤ l.byte_limit)
        × (p.pages ≤ l.page_capacity)
        × (p.snapshots ≤ l.max_snapshot_bytes)
        × (p.entries ≤ l.entry_limit)
  fits-bounds l p h = ground arith

  -- The pages that become free when some entries are removed.
  abbrev pub freed_pages : List ℕ → ℕ
  freed_pages ids = freed_by c (pages_onto ids [])

  -- Whenever `plan_evictions` finds a plan, its entries are the first ones of the LRU order without the
  -- protected entry. Their removal takes the totals of the cache, with what the request adds, down by
  -- their snapshot bytes, by one entry each (from 0 round to the greatest `usize`) and by the pages that
  -- it frees, which are none if retirement is not immediate, and else the different pages of these
  -- entries that no sequence holds and whose references from prefixes, at least one, are no more than
  -- the places of the page in these entries. What is left is within the limits on bytes, pages,
  -- snapshot bytes and entries.
  pub plan_evictions_sound :
      (q : PlanRequest) (protected : Option ℕ) {chosen : List ℕ}
      → plan_evictions q protected c ≡ ok (some chosen)
      → (after : Plan) × IsPrefixOf chosen (evictable protected c.lru)
        × IsFreed c.page_bytes (freed_pages chosen) (bytes_of chosen) (requested q) after
        × (after.entries ≡ entries_after chosen (requested q).entries)
        × (after.total ≤ q.byte_limit)
        × (after.pages ≤ c.page_capacity)
        × (after.snapshots ≤ c.config.max_snapshot_bytes)
        × (after.entries ≤ unwrap_or c.config.max_prefix_entries usize_max)
  plan_evictions_sound q protected {chosen} h =
      let (before, after, start, prefix, removed, fit) = plan_evictions-fits c q protected h in
      let same = initial_plan-requested q start in
      let counted : HasCounted before [] = λ j. ap (λ p. count_of j p.removed_page_refs) same in
      let (n, freed, total) = remove_all-IsFreed chosen [] before counted removed in
      let all : n ≡ freed_pages chosen = omega (arith, total) in
      let from =
        subst (λ p. IsFreed c.page_bytes (freed_pages chosen) (bytes_of chosen) p after) same
          (subst (λ k. IsFreed c.page_bytes k (bytes_of chosen) before after) all freed) in
      let (bytes, pages, snapshots, entries) = fits-bounds (limits_of c q.byte_limit) after fit in
      let less =
        remove_all-entries chosen before removed ∙ ap (λ p. entries_after chosen p.entries) same in
      (after, prefix, from, less, bytes, pages, snapshots, entries)
