-- ===== src/Cache/Append/Accepted.antt =====
-- What a sequence satisfies that the checks of `validate` let through.
use native.Mathlib.Nat.{mod-lt}
use seqcache.Prelude.{
  ℕ, ◌+◌, ◌-◌, ◌%◌, ◌≤◌, ◌<◌, ◌≡◌, ◌⊎◌, refl, ap, ◌∙◌, inl, inr, true, false, not, Bool, ◌&&◌, ◌||◌,
  Bool-cases, Option, none, some, List, length, get_last?, ltb, ◌==◌, ==_iff, if◌then◌else◌, arith,
}
use seqcache.Word.{usize_max}
use seqcache.Error.{Result, ok, reject_if, >>=-eq-ok, invariant, ◌>>=◌, ◌>>◌}
use seqcache.Arena.{Handle}
use seqcache.Backend.{Runtime}
use seqcache.Config.{div_ceil}
use seqcache.Cache.Records.{PendingAppend, SequenceRecord, PageRecord, SequenceCache}
use seqcache.Cache.Pages.{page_record}
use seqcache.Cache.Reserve.{writable_tail, check_tail}
use seqcache.Cache.Validate.{
  check_sequence, check_tail_page, check_pending_pages, pending_pages, last_is_empty,
}
use seqcache.Cache.Append.Sizes.{pages_of, div_ceil-value}

reject_if-eq-ok : {E : Type 0} (b : Bool) (e : E) {u : Unit {0}} → reject_if b e ≡ ok u → b ≡ false
reject_if-eq-ok true e h = absurd (cc h)
reject_if-eq-ok false e h = refl

-- The steps of `check_sequence` that succeed.
steps-eq-ok :
    {E : Type 0} (below : Result E (Unit {0})) (ceil : Result E ℕ) (sized : ℕ → Result E (Unit {0}))
    (pending : Result E (Unit {0})) (tail : ℕ → Result E (Unit {0})) (most : Result E ℕ)
    (promised : ℕ → Result E (Unit {0}))
    → (below >> (ceil >>= λ e. sized e >> (pending >> (tail e >> (most >>= promised))))) ≡ ok tt
    → (below ≡ ok tt)
      × (e : ℕ) × (ceil ≡ ok e)
      × (sized e ≡ ok tt)
      × (tail e ≡ ok tt)
      × (m : ℕ) × (most ≡ ok m)
      × (promised m ≡ ok tt)
steps-eq-ok below ceil sized pending tail most promised h =
    let (_, h1, k1) =
      >>=-eq-ok below (λ _. ceil >>= λ e. sized e >> (pending >> (tail e >> (most >>= promised))))
        h in
    let (e, h2, k2) =
      >>=-eq-ok ceil (λ e. sized e >> (pending >> (tail e >> (most >>= promised)))) k1 in
    let (_, h3, k3) = >>=-eq-ok (sized e) (λ _. pending >> (tail e >> (most >>= promised))) k2 in
    let (_, h4, k4) = >>=-eq-ok pending (λ _. tail e >> (most >>= promised)) k3 in
    let (_, h5, k5) = >>=-eq-ok (tail e) (λ _. most >>= promised) k4 in
    let (m, h6, k6) = >>=-eq-ok most promised k5 in (h1, e, h2, h3, h5, m, h6, k6)

-- The number of pages of an accepted sequence.
pages-cases :
    (n e : ℕ) (aligned empty : Bool)
    → (not (n == e) && not (aligned && n == e + 1 && empty)) ≡ false
    → (n ≡ e) ⊎ ((aligned ≡ true) × (n ≡ e + 1))
pages-cases n e aligned empty h = elim (Bool-cases (n == e)) [
  | inl same ↦ inl ((==_iff n e).0 same)
  | inr other ↦ inr (ground arith, ground arith)
]

promised_pages :
    {T : Type 0} (pages : List Handle) (pending : Option (PendingAppend T)) (reserved m : ℕ)
    → pending ≡ none
    → not (length pages + length (pending_pages pending) + reserved == m) ≡ false
    → length pages + reserved ≡ m
promised_pages pages none reserved m idle h = ground arith
promised_pages pages (some p) reserved m idle h = absurd (cc idle)

-- The right side of a conjunction that fails, where the left side holds.
and-right : (a b : Bool) → a ≡ true → (a && b) ≡ false → b ≡ false
and-right true b h k = k
and-right false b h k = absurd (cc h)

module _ {R : Runtime} where
  -- What an accepted sequence without a pending append satisfies.
  pub record Accepted (s : SequenceRecord R.AppendTransaction) (c : SequenceCache R) : Type 0 where
    pub bounded : s.position ≤ s.max_position
    pub sized :
        (length s.pages ≡ pages_of c.config.page_tokens s.position)
        ⊎ ((s.position % c.config.page_tokens ≡ 0)
            × (length s.pages ≡ pages_of c.config.page_tokens s.position + 1))
    pub private : check_tail (writable_tail c.config.page_tokens s.position s.pages) c ≡ ok tt
    pub fits : s.max_position + (c.config.page_tokens - 1) ≤ usize_max
    pub promised : length s.pages + s.reserved_pages ≡ pages_of c.config.page_tokens s.max_position

  -- A tail that `validate` accepts may be written.
  check_tail_page-check_tail :
      (d position : ℕ) (tail : Option Handle) (c : SequenceCache R)
      → 0 < d
      → (position % d == 0) ≡ false
      → check_tail_page d position tail c ≡ ok tt
      → check_tail tail c ≡ ok tt
  check_tail_page-check_tail d position none c pos inside h = refl
  check_tail_page-check_tail d position (some id) c pos inside h =
      let rest = mod-lt position pos in
      let expected = if position % d == 0 then d else position % d in
      let full = λ (p : PageRecord R.Page). not (p.valid_tokens == expected) in
      let shared = λ (p : PageRecord R.Page).
        p.sealed || not (p.active_refs == 1) || not (p.prefix_refs == 0) in
      let short : ltb expected d ≡ true = rw inside (ground arith) in
      let (p, found, k) =
        >>=-eq-ok (page_record id c)
          (λ p.
            reject_if (full p) (invariant "tail valid rows disagree with position")
            >> reject_if (ltb expected d && shared p) (invariant "writable tail is shared"))
          h in
      let (_, _, k') =
        >>=-eq-ok (reject_if (full p) (invariant "tail valid rows disagree with position"))
          (λ _. reject_if (ltb expected d && shared p) (invariant "writable tail is shared")) k in
      let private : shared p ≡ false =
        and-right (ltb expected d) (shared p) short
          (reject_if-eq-ok (ltb expected d && shared p) (invariant "writable tail is shared") k') in
      rw (found, private) refl

  tail-check_tail :
      (d position : ℕ) (more empty : Bool) (pages : List Handle) (c : SequenceCache R)
      → 0 < d
      → check_tail_page d position
          (if position % d == 0 && more && empty then none else get_last? pages)
          c
        ≡ ok tt
      → check_tail (writable_tail d position pages) c ≡ ok tt
  tail-check_tail d position more empty pages c pos h = elim (Bool-cases (position % d == 0)) [
    | inl aligned ↦ rw aligned refl
    | inr inside ↦
        rw inside
          (check_tail_page-check_tail d position (get_last? pages) c pos inside (rw inside at h))
  ]

  pub check_sequence-Accepted :
      (s : SequenceRecord R.AppendTransaction) (c : SequenceCache R)
      → s.pending ≡ none
      → 0 < c.config.page_tokens
      → check_sequence s c ≡ ok tt
      → Accepted s c
  unfolding check_sequence
  check_sequence-Accepted s c idle pos h =
      let d = c.config.page_tokens in
      let aligned = s.position % d == 0 in
      let spare =
        λ (e : ℕ). aligned && length s.pages == e + 1 && last_is_empty (get_last? s.pages) c in
      let lengths = λ (e : ℕ). not (length s.pages == e) && not (spare e) in
      let total = λ (m : ℕ).
        not (length s.pages + length (pending_pages s.pending) + s.reserved_pages == m) in
      let (below, e, ceil, sized, tail, m, most, promised) =
        steps-eq-ok
          (reject_if (ltb s.max_position s.position)
            (invariant "sequence exceeds maximum position"))
          (div_ceil s.position d)
          (λ e. reject_if (lengths e) (invariant "sequence position disagrees with pages"))
          (check_pending_pages (pending_pages s.pending) c)
          (λ e. check_tail_page d s.position (if spare e then none else get_last? s.pages) c)
          (div_ceil s.max_position d)
          (λ m. reject_if (total m) (invariant "sequence reservation disagrees with maximum")) h in
      let bounded = reject_if-eq-ok (ltb s.max_position s.position) _ below in
      let sized' = reject_if-eq-ok (lengths e) _ sized in
      let promised' = reject_if-eq-ok (total m) _ promised in
      let (value, _) = div_ceil-value s.position d ceil in
      let (value', fits) = div_ceil-value s.max_position d most in
      record {
        bounded = ground arith;
        sized =
            elim (pages-cases (length s.pages) e aligned (last_is_empty (get_last? s.pages) c)
              sized') [
                | inl same ↦ inl (same ∙ value)
                | inr (edge, more) ↦
                    inr ((==_iff (s.position % d) 0).0 edge, more ∙ ap (λ n. n + 1) value)
              ];
        private =
            tail-check_tail d s.position (length s.pages == e + 1)
              (last_is_empty (get_last? s.pages) c) s.pages c pos tail;
        fits = fits;
        promised = promised_pages s.pages s.pending s.reserved_pages m idle promised' ∙ value';
      }
