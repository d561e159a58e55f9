-- ===== src/Cache/Accounted/Exact.antt =====
-- `refresh_stats` publishes what `compute_stats` recomputes.
use seqcache.Prelude.{
  ℕ, ◌+◌, ◌*◌, ◌≡◌, ap, ◌∙◌, sym, some, List, [], ◌∷◌, ◌≤◌, inl, inr, Bool-cases, leb, leb→le,
  if◌then◌else◌, length, sum_by, count_by, values, arith,
}
use seqcache.Error.{ok, err, >>=-eq-ok, arithmetic_overflow}
use seqcache.Word.{checked_add, checked_sub, usize_max}
use seqcache.Backend.{Runtime}
use seqcache.Cache.Records.{SequenceCache, SequenceRecord, PrefixEntry, Stats}
use seqcache.Cache.Totals.{
  is_live, live_values, is_reclaimable, try_total, managed_total, checked_bytes, free_pages_of,
}
use seqcache.Index.{block_count}
use seqcache.Cache.Refresh.{refresh_stats, gauges_of, publish_gauges}
use seqcache.Cache.Recount.{LiveTotals, live_totals, stats_from, compute_stats}
use seqcache.Cache.Accounted.{IsAccounted}

-- The fold is the sum, or an overflow.
try_total-sum :
    {E A : Type 0} (f : A → ℕ) (start : ℕ) (xs : List A)
    → start ≤ usize_max
    → try_total {E = E} f start xs ≡ (
        if leb (start + sum_by f xs) usize_max
        then ok (start + sum_by f xs)
        else err arithmetic_overflow)
try_total-sum f start [] h = ground arith
try_total-sum {E} f start (x ∷ xs) h = elim (Bool-cases (leb (start + f x) usize_max)) [
  | inl fits ↦
      let e : start + f x + sum_by f xs ≡ start + (f x + sum_by f xs) = omega arith in
      rw (fits, try_total-sum {E = E} f (start + f x) xs (leb→le _ _ fits), e)
  | inr over ↦ rw over (ground arith)
]

used_slots : (slots free live : ℕ) → slots ≡ free + live → checked_sub slots free ≡ some live
used_slots slots free live h = ground arith

module _ {R : Runtime} where
  -- The cache with its totals and its gauges set to `s`.
  abbrev pub published : SequenceCache R → Stats ℕ → SequenceCache R
  published c s = record c { stats = s; metrics = record (c.metrics) { gauges = gauges_of s } }

  live_totals_lem :
      (c : SequenceCache R) {t : LiveTotals}
      → live_totals c ≡ ok t
      → (checked_add (count_by is_live c.pages.slots) c.deferred_pages ≡ some t.resident)
        × (t.reserved ≡ sum_by (λ s. s.reserved_pages) (live_values c.sequences.slots))
        × (t.private ≡ sum_by (λ s. s.private_state_bytes) (live_values c.sequences.slots))
        × (t.tables ≡ sum_by (λ s. s.page_table_bytes) (live_values c.sequences.slots))
        × (t.snapshots ≡ sum_by (λ e. e.snapshot_bytes) (values c.prefixes))
  unfolding live_totals
  live_totals_lem c {t} h = ground (
    arith,
    sequence_total (λ s. s.reserved_pages),
    sequence_total (λ s. s.private_state_bytes),
    sequence_total (λ s. s.page_table_bytes),
    try_total-sum {E = R.BackendError}
        (λ (e : PrefixEntry R.radix.Key R.Snapshot). e.snapshot_bytes) 0 (values c.prefixes),
  )
    where
      sequence_total :
          (f : SequenceRecord R.AppendTransaction → ℕ)
          → try_total {E = R.BackendError} f 0 (live_values c.sequences.slots) ≡ (
              if leb (0 + sum_by f (live_values c.sequences.slots)) usize_max
              then ok (0 + sum_by f (live_values c.sequences.slots))
              else err arithmetic_overflow)
      sequence_total f = try_total-sum f 0 (live_values c.sequences.slots) (omega arith)

  -- The totals that `refresh_stats` sets, given each of its checked steps.
  abbrev refreshed : SequenceCache R → LiveTotals → Stats ℕ → Stats ℕ
  refreshed c t s = record {
    active_sequences = count_by is_live c.sequences.slots;
    retained_prefix_entries = length c.prefixes;
    interned_token_blocks = block_count c.index;
    resident_pages = t.resident;
    free_pages = free_pages_of c s.total_managed_bytes t.resident c.stats.reserved_pages;
    reserved_pages = c.stats.reserved_pages;
    deferred_retirement_pages = c.deferred_pages;
    unique_resident_page_bytes = s.unique_resident_page_bytes;
    outstanding_reservation_bytes = s.outstanding_reservation_bytes;
    active_private_state_bytes = c.stats.active_private_state_bytes;
    retained_snapshot_bytes = c.stats.retained_snapshot_bytes;
    page_table_bytes = c.stats.page_table_bytes;
    reclaimable_prefix_only_bytes = c.stats.reclaimable_prefix_only_bytes;
    total_managed_bytes = s.total_managed_bytes;
  }

  abbrev IsDerived : SequenceCache R → LiveTotals → Stats ℕ → Type 0
  IsDerived c t s =
      (checked_bytes {E = R.BackendError} t.resident c.page_bytes ≡ ok s.unique_resident_page_bytes)
      × (checked_bytes {E = R.BackendError} t.reserved c.page_bytes
          ≡ ok s.outstanding_reservation_bytes)
      × (s.reclaimable_prefix_only_bytes
          ≡ count_by is_reclaimable (live_values c.pages.slots) * c.page_bytes)
      × (managed_total {E = R.BackendError} s.unique_resident_page_bytes
            s.outstanding_reservation_bytes t.private t.snapshots t.tables
          ≡ ok s.total_managed_bytes)

  stats_from-IsDerived :
      (c : SequenceCache R) (t : LiveTotals) {s : Stats ℕ} → stats_from c t ≡ ok s → IsDerived c t s
  unfolding stats_from
  stats_from-IsDerived c t {s} h = ground arith

  stats_from_fields :
      (c : SequenceCache R) (t : LiveTotals) {s : Stats ℕ}
      → stats_from c t ≡ ok s
      → s ≡ record s {
        active_sequences = count_by is_live c.sequences.slots;
        retained_prefix_entries = length c.prefixes;
        interned_token_blocks = block_count c.index;
        resident_pages = t.resident;
        free_pages = free_pages_of c s.total_managed_bytes t.resident t.reserved;
        reserved_pages = t.reserved;
        deferred_retirement_pages = c.deferred_pages;
        active_private_state_bytes = t.private;
        retained_snapshot_bytes = t.snapshots;
        page_table_bytes = t.tables;
      }
  unfolding stats_from
  stats_from_fields c t {s} h = ground arith

  refresh_stats_lem :
      (c : SequenceCache R) (t : LiveTotals) (s : Stats ℕ) (owned : ℕ)
      → checked_sub (length c.pages.slots) (length c.pages.free) ≡ some owned
      → checked_add owned c.deferred_pages ≡ some t.resident
      → checked_sub (length c.sequences.slots) (length c.sequences.free)
        ≡ some (count_by is_live c.sequences.slots)
      → checked_bytes {E = R.BackendError} t.resident c.page_bytes ≡ ok s.unique_resident_page_bytes
      → checked_bytes {E = R.BackendError} c.stats.reserved_pages c.page_bytes
        ≡ ok s.outstanding_reservation_bytes
      → managed_total {E = R.BackendError} s.unique_resident_page_bytes
          s.outstanding_reservation_bytes c.stats.active_private_state_bytes
          c.stats.retained_snapshot_bytes c.stats.page_table_bytes
        ≡ ok s.total_managed_bytes
      → refresh_stats c ≡ (ok tt, published c (refreshed c t s))
  unfolding refresh_stats publish_gauges
  refresh_stats_lem c t s owned p1 p2 p3 p4 p5 p6 = ground arith

  -- The cache after a change whose sums agree with the records: whenever the totals can be
  -- recomputed without an overflow, `refresh_stats` succeeds, publishes exactly them, to the gauges
  -- too, and changes nothing else.
  pub refresh_stats-compute_stats :
      (c : SequenceCache R) {s : Stats ℕ}
      → IsAccounted c
      → compute_stats c ≡ ok s
      → refresh_stats c ≡ (ok tt, published c s)
  unfolding compute_stats
  refresh_stats-compute_stats c {s} a h =
      let (t, folded, derived) = >>=-eq-ok (live_totals c) (stats_from c) h in
      let (p1, p2, p3, p4, p5) = live_totals_lem c folded in
      let (q1, q2, q3, q4) = stats_from-IsDerived c t derived in
      let fields = stats_from_fields c t derived in
      let r2 = p2 ∙ sym a.reserved in
      let r3 = p3 ∙ sym a.private in
      let r4 = p4 ∙ sym a.tables in
      let r5 = p5 ∙ sym a.snapshots in
      let same : refreshed c t s ≡ s = cc (q3 ∙ sym a.reclaimable) in
      let refresh =
        refresh_stats_lem c t s _ (used_slots _ _ _ a.pages_tiled) p1
          (used_slots _ _ _ a.sequences_tiled) q1 (rw (← r2) q2) (rw (← r3, ← r4, ← r5) q4) in
      refresh ∙ ap (λ x. (ok tt, published c x)) same
