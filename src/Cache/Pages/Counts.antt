-- ===== src/Cache/Pages/Counts.antt =====
-- The reference counts of the pages, with the total of the reclaimable bytes: what
-- `increment_active_ref` and its three kin leave.
use seqcache.Prelude.{
  ℕ, ◌+◌, ◌*◌, ◌≡◌, refl, ap, ◌∙◌, not, ◌&&◌, some, ◌==◌, if◌then◌else◌, indicator, count_by,
  length, Option-cases, inl, inr, arith,
}
use native.Mathlib.Nat.{add-mul}
use seqcache.Word.{checked_add, checked_sub}
use seqcache.Error.{Result, ok, err, panic, ok_or, arithmetic_overflow, invariant, Result-cases}
use seqcache.Exec.{lift, reads, modify, ◌>>=◌, ◌>>◌}
use seqcache.Arena.{Handle, resolve, write}
use seqcache.Arena.Weights.{weigh-write, write-sizes}
use seqcache.Backend.{Runtime}
use seqcache.Cache.Records.{PageRecord, SequenceCache}
use seqcache.Cache.Monad.{Outcome, Action}
use seqcache.Cache.Totals.{is_reclaimable, live_values}
use seqcache.Cache.Accounted.{IsAccounted}
use seqcache.Cache.Sequences.Accounts.{live_values-weigh, count_by-weigh}
use seqcache.Cache.Pages.{
  page_record, set_page, set_reclaimable, increment_active_ref, decrement_active_ref,
  increment_prefix_ref, decrement_prefix_ref,
}

abbrev reclaims : {P : Type 0} → PageRecord P → ℕ
reclaims p = indicator (is_reclaimable p)

abbrev IsTotal : {E A : Type 0} → Result E A → Type 0
IsTotal (ok _) = Unit {0}
IsTotal (err e) = Unit {0}
IsTotal panic = ⊥

moved_total : (r x y w w' n : ℕ) → w' + x ≡ w + y → r + x * n ≡ w * n + y * n → r ≡ w' * n
moved_total r x y w w' n h k = omega (arith, ap (λ (t : ℕ). t * n) h, add-mul w' x n, add-mul w y n)

module _ {R : Runtime} where
  -- The page is written, and the reclaimable bytes move as it starts or stops being reclaimable.
  set_page-IsAccounted :
      (id : Handle) (p p' : PageRecord R.Page) (reclaimable : ℕ) (c : SequenceCache R)
      → IsAccounted c
      → resolve c.pages id ≡ some p
      → reclaimable + reclaims p * c.page_bytes
        ≡ c.stats.reclaimable_prefix_only_bytes + reclaims p' * c.page_bytes
      → IsAccounted (set_reclaimable reclaimable (set_page id p' c))
  set_page-IsAccounted id p p' reclaimable c a live moved =
      let old = c.pages in
      let new = write c.pages id p' in
      let (slots, free) = write-sizes old id p' in
      record {
        pages_tiled = omega (
          arith,
          a.pages_tiled,
          slots,
          ap length free,
          count_by-weigh old.slots,
          count_by-weigh new.slots,
          weigh-write (λ v. 1) old id p' live,
        );
        sequences_tiled = a.sequences_tiled;
        reserved = a.reserved;
        private = a.private;
        tables = a.tables;
        snapshots = a.snapshots;
        reclaimable =
            moved_total reclaimable (reclaims p) (reclaims p')
              (count_by is_reclaimable (live_values old.slots))
              (count_by is_reclaimable (live_values new.slots)) c.page_bytes
              (omega (
                arith,
                live_values-weigh reclaims old.slots,
                live_values-weigh reclaims new.slots,
                weigh-write reclaims old id p' live,
              ))
              (moved ∙ ap (λ t. t + reclaims p' * c.page_bytes) a.reclaimable);
      }

  -- The four methods: a page is read, one of its counts is moved, the reclaimable bytes after that are
  -- computed, and both are written.
  abbrev move_ref :
      Handle
      → (PageRecord R.Page → Outcome R ℕ)
      → (PageRecord R.Page → ℕ → SequenceCache R → Outcome R ℕ)
      → (PageRecord R.Page → ℕ → PageRecord R.Page)
      → Action R (Unit {0})
  move_ref id moved after put = do
    p ← reads (page_record id)
    n ← lift (moved p)
    reclaimable ← reads (after p n)
    modify (set_page id (put p n))
    modify (set_reclaimable reclaimable)

  -- A success keeps the totals in agreement, and an error changes nothing.
  abbrev pub Settles : SequenceCache R → Outcome R (Unit {0}) × SequenceCache R → Type 0
  Settles c (ok _, c') = IsAccounted c'
  Settles c (err e, c') = c' ≡ c
  Settles c (panic, c') = ⊥

  move_ref-Settles :
      (id : Handle) (moved : PageRecord R.Page → Outcome R ℕ)
      (after : PageRecord R.Page → ℕ → SequenceCache R → Outcome R ℕ)
      (put : PageRecord R.Page → ℕ → PageRecord R.Page) (c : SequenceCache R)
      → IsAccounted c
      → ((p : PageRecord R.Page) → IsTotal (moved p))
      → ((p : PageRecord R.Page) (n : ℕ) → IsTotal (after p n c))
      → ((p : PageRecord R.Page) (n r : ℕ)
          → moved p ≡ ok n
          → after p n c ≡ ok r
          → r + reclaims p * c.page_bytes
            ≡ c.stats.reclaimable_prefix_only_bytes + reclaims (put p n) * c.page_bytes)
      → Settles c (move_ref id moved after put c)
  unfolding page_record
  move_ref-Settles id moved after put c a total total' exact =
      elim (Option-cases (resolve c.pages id)) [
        | inl stale ↦ rw stale refl
        | inr (p, live) ↦ elim (Result-cases (moved p)) [
          | inr (inl (e, bad)) ↦ rw (live, bad) refl
          | inr (inr stuck) ↦ absurd (rw stuck at (total p))
          | inl (n, fine) ↦ elim (Result-cases (after p n c)) [
            | inr (inl (e, bad)) ↦ rw (live, fine, bad) refl
            | inr (inr stuck) ↦ absurd (rw stuck at (total' p n))
            | inl (r, given) ↦
                rw (live, fine, given)
                  (set_page-IsAccounted id p (put p n) r c a live (exact p n r fine given))
          ]
        ]
      ]

  increment_active_ref-Settles :
      (id : Handle) (c : SequenceCache R) → IsAccounted c → Settles c (increment_active_ref id c)
  unfolding increment_active_ref
  increment_active_ref-Settles id c a =
      move_ref-Settles id (λ p. ok_or (checked_add p.active_refs 1) arithmetic_overflow)
        (λ p n d.
          if is_reclaimable p
          then ok_or (checked_sub d.stats.reclaimable_prefix_only_bytes d.page_bytes)
              (invariant "shared page missing from reclaimable accounting")
          else ok d.stats.reclaimable_prefix_only_bytes)
        (λ p n. record p { active_refs = n }) c a (λ p. ground arith) (λ p n. ground arith)
        (λ p n r fine given. ground arith)

  decrement_active_ref-Settles :
      (id : Handle) (c : SequenceCache R) → IsAccounted c → Settles c (decrement_active_ref id c)
  unfolding decrement_active_ref
  decrement_active_ref-Settles id c a =
      move_ref-Settles id
        (λ p. ok_or (checked_sub p.active_refs 1) (invariant "missing active page reference"))
        (λ p n d.
          if n == 0 && not (p.prefix_refs == 0)
          then ok_or (checked_add d.stats.reclaimable_prefix_only_bytes d.page_bytes)
              arithmetic_overflow
          else ok d.stats.reclaimable_prefix_only_bytes)
        (λ p n. record p { active_refs = n }) c a (λ p. ground arith) (λ p n. ground arith)
        (λ p n r fine given. ground arith)

  increment_prefix_ref-Settles :
      (id : Handle) (c : SequenceCache R) → IsAccounted c → Settles c (increment_prefix_ref id c)
  unfolding increment_prefix_ref
  increment_prefix_ref-Settles id c a =
      move_ref-Settles id (λ p. ok_or (checked_add p.prefix_refs 1) arithmetic_overflow)
        (λ p n d.
          if p.active_refs == 0 && p.prefix_refs == 0
          then ok_or (checked_add d.stats.reclaimable_prefix_only_bytes d.page_bytes)
              arithmetic_overflow
          else ok d.stats.reclaimable_prefix_only_bytes)
        (λ p n. record p { prefix_refs = n }) c a (λ p. ground arith) (λ p n. ground arith)
        (λ p n r fine given. ground arith)

  decrement_prefix_ref-Settles :
      (id : Handle) (c : SequenceCache R) → IsAccounted c → Settles c (decrement_prefix_ref id c)
  unfolding decrement_prefix_ref
  decrement_prefix_ref-Settles id c a =
      move_ref-Settles id
        (λ p. ok_or (checked_sub p.prefix_refs 1) (invariant "missing prefix page reference"))
        (λ p n d.
          if is_reclaimable p && n == 0
          then ok_or (checked_sub d.stats.reclaimable_prefix_only_bytes d.page_bytes)
              (invariant "shared page missing from reclaimable accounting")
          else ok d.stats.reclaimable_prefix_only_bytes)
        (λ p n. record p { prefix_refs = n }) c a (λ p. ground arith) (λ p n. ground arith)
        (λ p n r fine given. ground arith)

  -- On a cache whose running totals agree with its records, one more or one less active or prefix
  -- reference to a page keeps the agreement; an error changes nothing, and there is no panic.
  pub reference_counts-Settles :
      (id : Handle) (c : SequenceCache R)
      → IsAccounted c
      → Settles c (increment_active_ref id c)
        × Settles c (decrement_active_ref id c)
        × Settles c (increment_prefix_ref id c)
        × Settles c (decrement_prefix_ref id c)
  reference_counts-Settles id c a = (
    increment_active_ref-Settles id c a,
    decrement_active_ref-Settles id c a,
    increment_prefix_ref-Settles id c a,
    decrement_prefix_ref-Settles id c a,
  )
