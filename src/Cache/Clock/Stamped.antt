-- ===== src/Cache/Clock/Stamped.antt =====
-- The renormalization of the clock: the entries get the times 1, 2, and so on in the order of their last use.
use seqcache.Prelude.{
  ltb, ℕ, suc, ◌+◌, ◌≤◌, ◌<◌, ◌≡◌, refl, ap, sym, subst, ◌∙◌, Bool, true, false, ◌||◌, none, some,
  List, [], ◌∷◌, length, ltb, ◌==◌, if◌then◌else◌, any_of, All, get_key, insert_key, pair_ltb,
  Bool-cases, Option-cases, inl, inr, arith,
}
use mathlib.Core.Path.{ap₂}
use seqcache.Cache.Records.{PrefixEntry}
use seqcache.Cache.Clock.{insert_sorted, sort_pairs, stamp, restamp, timestamps}

length-insert_sorted : (p : ℕ × ℕ) (s : List (ℕ × ℕ)) → length (insert_sorted p s) ≡ suc (length s)
unfolding insert_sorted
length-insert_sorted p [] = refl
length-insert_sorted p (q ∷ s) = elim (Bool-cases (pair_ltb p q)) [
  | inl before ↦ rw before refl
  | inr after ↦ rw after (omega (arith, length-insert_sorted p s))
]

length-sort_pairs : (s : List (ℕ × ℕ)) → length (sort_pairs s) ≡ length s
unfolding sort_pairs
length-sort_pairs [] = refl
length-sort_pairs (p ∷ s) = length-insert_sorted p (sort_pairs s) ∙ ap suc (length-sort_pairs s)

-- Whether an identity is among some pairs.
abbrev among : ℕ → List (ℕ × ℕ) → Bool
among j = any_of (λ q. q.1 == j)

among-insert_sorted :
    (j : ℕ) (p : ℕ × ℕ) (s : List (ℕ × ℕ)) → among j (insert_sorted p s) ≡ (p.1 == j || among j s)
unfolding insert_sorted
among-insert_sorted j p [] = refl
among-insert_sorted j p (q ∷ s) = elim (Bool-cases (pair_ltb p q)) [
  | inl before ↦ rw before refl
  | inr after ↦ rw (after, among-insert_sorted j p s) (ground arith)
]

among-sort_pairs : (j : ℕ) (s : List (ℕ × ℕ)) → among j (sort_pairs s) ≡ among j s
unfolding sort_pairs
among-sort_pairs j [] = refl
among-sort_pairs j (p ∷ s) =
    among-insert_sorted j p (sort_pairs s) ∙ ap (λ b. p.1 == j || b) (among-sort_pairs j s)

module _ {K S : Type 0} where
  -- The keys of a map in ascending order.
  abbrev pub IsAscending : List (ℕ × PrefixEntry K S) → Type 0
  IsAscending [] = Unit {0}
  IsAscending ((k, e) ∷ m) = All (λ x. k < x.0) m × IsAscending m

  -- Every entry of that key gets the time.
  abbrev mark : ℕ → ℕ → List (ℕ × PrefixEntry K S) → List (ℕ × PrefixEntry K S)
  mark id time [] = []
  mark id time ((k, e) ∷ m) =
      (k, (if k == id then record e { last_used = time } else e)) ∷ mark id time m

  mark_absent :
      (id time k : ℕ) (m : List (ℕ × PrefixEntry K S))
      → All (λ x. k < x.0) m
      → id ≤ k
      → (mark id time m ≡ m) × (get_key id m ≡ none)
  mark_absent id time k [] above le = (refl, refl)
  mark_absent id time k ((j, e) ∷ m) (here, there) le =
      let (same, missing) = mark_absent id time k m there le in
      let other : (j == id) ≡ false = ground arith in (rw (other, same) refl, rw other missing)

  insert_key-mark :
      (id time : ℕ) (e : PrefixEntry K S) (m : List (ℕ × PrefixEntry K S))
      → IsAscending m
      → get_key id m ≡ some e
      → insert_key id (record e { last_used = time }) m ≡ mark id time m
  insert_key-mark id time e [] up at = absurd (cc at)
  insert_key-mark id time e ((k, d) ∷ m) (above, up) at = elim (Bool-cases (k == id)) [
    | inl same ↦
        let equal : k ≡ id = ground arith in
        let (kept, _) = mark_absent id time k m above (omega arith) in
        let mine : d ≡ e = cc (rw same at at) in
        let below : ltb id k ≡ false = ground arith in
        let here : (id == k) ≡ true = ground arith in
        rw (below, here, same, kept)
          (ap₂ (λ i x. (i, record x { last_used = time }) ∷ m) (sym equal) (sym mine))
    | inr other ↦
        let at' = rw other at at in
        elim (Bool-cases (ltb id k)) [
          | inl less ↦
              let (_, missing) = mark_absent id time k m above (ground arith) in
              absurd (cc (missing, at'))
          | inr later ↦
              let apart : (id == k) ≡ false = ground arith in
              rw (later, apart, other, insert_key-mark id time e m up at') refl
        ]
  ]

  mark_missing :
      (id time : ℕ) (m : List (ℕ × PrefixEntry K S)) → get_key id m ≡ none → mark id time m ≡ m
  mark_missing id time [] at = refl
  mark_missing id time ((k, d) ∷ m) at = elim (Bool-cases (k == id)) [
    | inl same ↦ absurd (cc (rw same at at))
    | inr other ↦ rw (other, mark_missing id time m (rw other at at)) refl
  ]

  stamp-mark :
      (id time : ℕ) (m : List (ℕ × PrefixEntry K S))
      → IsAscending m
      → stamp id time m ≡ mark id time m
  unfolding stamp
  stamp-mark id time m up = elim (Option-cases (get_key id m)) [
    | inl missing ↦ rw (missing, stamp) (sym (mark_missing id time m missing))
    | inr (e, at) ↦ rw (at, stamp) (insert_key-mark id time e m up at)
  ]

  mark_above :
      (id time k : ℕ) (m : List (ℕ × PrefixEntry K S))
      → All (λ x. k < x.0) m
      → All (λ x. k < x.0) (mark id time m)
  mark_above id time k [] above = tt
  mark_above id time k ((j, e) ∷ m) (here, there) = (here, mark_above id time k m there)

  mark-IsAscending :
      (id time : ℕ) (m : List (ℕ × PrefixEntry K S)) → IsAscending m → IsAscending (mark id time m)
  mark-IsAscending id time [] up = tt
  mark-IsAscending id time ((k, e) ∷ m) (above, up) =
      (mark_above id time k m above, mark-IsAscending id time m up)

  length-mark : (id time : ℕ) (m : List (ℕ × PrefixEntry K S)) → length (mark id time m) ≡ length m
  length-mark id time [] = refl
  length-mark id time (x ∷ m) = ap suc (length-mark id time m)

  -- An entry whose identity does not wait for its new time has one up to `n`.
  abbrev AreStamped : List (ℕ × ℕ) → ℕ → List (ℕ × PrefixEntry K S) → Type 0
  AreStamped order n = All (λ x. among x.0 order ≡ false → x.1.last_used ≤ n)

  mark-AreStamped :
      (t id n : ℕ) (order : List (ℕ × ℕ)) (m : List (ℕ × PrefixEntry K S))
      → AreStamped ((t, id) ∷ order) n m
      → AreStamped order (n + 1) (mark id (n + 1) m)
  mark-AreStamped t id n order [] h = tt
  mark-AreStamped t id n order ((k, e) ∷ m) (here, there) = (
    λ done. elim (Bool-cases (k == id)) [
      | inl same ↦ rw same (omega arith)
      | inr other ↦
          let apart : (id == k) ≡ false = ground arith in
          let past = here (rw apart done) in rw other (omega (arith, past))
    ],
    mark-AreStamped t id n order m there,
  )

  -- What the renormalization leaves: the same keys in order, and times up to `n`.
  abbrev pub Restamped : ℕ → ℕ → List (ℕ × PrefixEntry K S) → Type 0
  Restamped size n m = IsAscending m × (length m ≡ size) × All (λ x. x.1.last_used ≤ n) m

  last_stamped :
      (n : ℕ) (m : List (ℕ × PrefixEntry K S)) → AreStamped [] n m → All (λ x. x.1.last_used ≤ n) m
  last_stamped n [] h = tt
  last_stamped n (x ∷ m) (here, there) = (here refl, last_stamped n m there)

  restamp-Restamped :
      (n : ℕ) (order : List (ℕ × ℕ)) (m : List (ℕ × PrefixEntry K S))
      → IsAscending m
      → AreStamped order n m
      → Restamped (length m) (n + length order) (restamp n order m)
  unfolding restamp
  restamp-Restamped n [] m up h =
      (up, refl, subst (λ k. All (λ x. x.1.last_used ≤ k) m) (omega arith) (last_stamped n m h))
  restamp-Restamped n ((t, id) ∷ order) m up h =
      let m' = mark id (n + 1) m in
      let (up', size, all) =
        restamp-Restamped (n + 1) order m' (mark-IsAscending id (n + 1) m up)
          (mark-AreStamped t id n order m h) in
      subst (λ x. Restamped (length m) (n + suc (length order)) (restamp (n + 1) order x))
        (sym (stamp-mark id (n + 1) m up))
        (
          up',
          size ∙ length-mark id (n + 1) m,
          subst (λ k. All (λ x. x.1.last_used ≤ k) (restamp (n + 1) order m')) (omega arith) all,
        )

  among_more :
      (p : ℕ × ℕ) (l : List (ℕ × ℕ)) (m : List (ℕ × PrefixEntry K S))
      → All (λ x. among x.0 l ≡ true) m
      → All (λ x. among x.0 (p ∷ l) ≡ true) m
  among_more p l [] h = tt
  among_more p l (x ∷ m) (here, there) = (rw here (ground arith), among_more p l m there)

  among-timestamps : (m : List (ℕ × PrefixEntry K S)) → All (λ x. among x.0 (timestamps m) ≡ true) m
  among-timestamps [] = tt
  among-timestamps ((k, e) ∷ m) =
      (ground arith, among_more (e.last_used, k) (timestamps m) m (among-timestamps m))

  length-timestamps : (m : List (ℕ × PrefixEntry K S)) → length (timestamps m) ≡ length m
  length-timestamps [] = refl
  length-timestamps (x ∷ m) = ap suc (length-timestamps m)

  waiting :
      (l : List (ℕ × ℕ)) (m : List (ℕ × PrefixEntry K S))
      → All (λ x. among x.0 l ≡ true) m
      → AreStamped (sort_pairs l) 0 m
  waiting l [] h = tt
  waiting l ((k, e) ∷ m) (here, there) =
      (λ done. absurd (cc (done, among-sort_pairs k l, here)), waiting l m there)

  pub renormalized-Restamped :
      (m : List (ℕ × PrefixEntry K S))
      → IsAscending m
      → Restamped (length m) (length m) (restamp 0 (sort_pairs (timestamps m)) m)
  renormalized-Restamped m up =
      subst (λ n. Restamped (length m) n (restamp 0 (sort_pairs (timestamps m)) m))
        (omega (arith, length-sort_pairs (timestamps m), length-timestamps m))
        (restamp-Restamped 0 (sort_pairs (timestamps m)) m up
          (waiting (timestamps m) m (among-timestamps m)))
