-- ===== src/Cache/Clock/Sorted.antt =====
-- The order of `sort_by_key` in the renormalization of the clock, and the ranks of the entries in it.
use seqcache.Prelude.{
  ℕ, ◌+◌, ◌≤◌, ◌<◌, ◌≡◌, ◌≢◌, refl, ap, ◌∙◌, Bool, true, false, ◌&&◌, ◌||◌, not, List, [], ◌∷◌,
  ◌==◌, if◌then◌else◌, any_of, All, pair_ltb, pair_eq, Bool-cases, inl, inr, arith,
}
use seqcache.Cache.Clock.{insert_sorted, sort_pairs}

any_of-insert_sorted :
    (f : ℕ × ℕ → Bool) (p : ℕ × ℕ) (s : List (ℕ × ℕ))
    → any_of f (insert_sorted p s) ≡ (f p || any_of f s)
unfolding insert_sorted
any_of-insert_sorted f p [] = refl
any_of-insert_sorted f p (q ∷ s) = elim (Bool-cases (pair_ltb p q)) [
  | inl before ↦ rw before refl
  | inr after ↦ rw (after, any_of-insert_sorted f p s) (ground arith)
]

pub any_of-sort_pairs : (f : ℕ × ℕ → Bool) (s : List (ℕ × ℕ)) → any_of f (sort_pairs s) ≡ any_of f s
unfolding sort_pairs
any_of-sort_pairs f [] = refl
any_of-sort_pairs f (p ∷ s) =
    any_of-insert_sorted f p (sort_pairs s) ∙ ap (λ b. f p || b) (any_of-sort_pairs f s)

-- No later pair is before an earlier one.
abbrev pub InOrder : List (ℕ × ℕ) → Type 0
InOrder [] = Unit {0}
InOrder (p ∷ s) = All (λ q. pair_ltb q p ≡ false) s × InOrder s

none_before :
    (p q : ℕ × ℕ) (s : List (ℕ × ℕ))
    → pair_ltb p q ≡ true
    → All (λ r. pair_ltb r q ≡ false) s
    → All (λ r. pair_ltb r p ≡ false) s
none_before p q [] less h = tt
none_before (i, j) (i', j') ((t, k) ∷ s) less (here, there) =
    (ground arith, none_before (i, j) (i', j') s less there)

none_before-insert_sorted :
    (p q : ℕ × ℕ) (s : List (ℕ × ℕ))
    → pair_ltb p q ≡ false
    → All (λ r. pair_ltb r q ≡ false) s
    → All (λ r. pair_ltb r q ≡ false) (insert_sorted p s)
unfolding insert_sorted
none_before-insert_sorted p q [] later h = (later, tt)
none_before-insert_sorted p q (r ∷ s) later (here, there) = elim (Bool-cases (pair_ltb p r)) [
  | inl before ↦ rw before (later, (here, there))
  | inr after ↦ rw after (here, none_before-insert_sorted p q s later there)
]

insert_sorted-InOrder : (p : ℕ × ℕ) (s : List (ℕ × ℕ)) → InOrder s → InOrder (insert_sorted p s)
unfolding insert_sorted
insert_sorted-InOrder p [] h = (tt, tt)
insert_sorted-InOrder (i, j) ((i', j') ∷ s) (above, h) =
    elim (Bool-cases (pair_ltb (i, j) (i', j'))) [
      | inl before ↦
          rw before ((ground arith, none_before (i, j) (i', j') s before above), (above, h))
      | inr after ↦ rw after (
        none_before-insert_sorted (i, j) (i', j') s after above,
        insert_sorted-InOrder (i, j) s h,
      )
    ]

pub sort_pairs-InOrder : (s : List (ℕ × ℕ)) → InOrder (sort_pairs s)
unfolding sort_pairs
sort_pairs-InOrder [] = tt
sort_pairs-InOrder (p ∷ s) = insert_sorted-InOrder p (sort_pairs s) (sort_pairs-InOrder s)

abbrev pub listed : ℕ → List (ℕ × ℕ) → Bool
listed id = any_of (λ q. q.1 == id)

-- The number of the last pair with this identity, from 1.
abbrev pub rank : ℕ → List (ℕ × ℕ) → ℕ
rank id [] = 0
rank id (p ∷ s) = if listed id s then 1 + rank id s else 1

-- The identity is listed with another time.
abbrev pub strays : ℕ → ℕ → List (ℕ × ℕ) → Bool
strays t id = any_of (λ q. q.1 == id && not (q.0 == t))

pub has-listed :
    (t id : ℕ) (s : List (ℕ × ℕ)) → any_of (pair_eq (t, id)) s ≡ true → listed id s ≡ true
has-listed t id [] h = absurd (cc h)
has-listed t id ((u, j) ∷ s) h = elim (Bool-cases (pair_eq (t, id) (u, j))) [
  | inl same ↦ ground arith
  | inr other ↦ rw (has-listed t id s (ground arith)) (ground arith)
]

-- A pair in the list is not before the head of a list in order.
not_before :
    (p q : ℕ × ℕ) (s : List (ℕ × ℕ))
    → All (λ r. pair_ltb r p ≡ false) s
    → any_of (pair_eq q) s ≡ true
    → pair_ltb q p ≡ false
not_before p q [] h e = absurd (cc e)
not_before (i, j) (t, id) ((u, k) ∷ s) (here, there) e =
    elim (Bool-cases (pair_eq (t, id) (u, k))) [
      | inl same ↦ ground arith
      | inr other ↦ not_before (i, j) (t, id) s there (ground arith)
    ]

listed-has :
    (t id : ℕ) (s : List (ℕ × ℕ))
    → strays t id s ≡ false
    → listed id s ≡ true
    → any_of (pair_eq (t, id)) s ≡ true
listed-has t id [] h e = absurd (cc e)
listed-has t id ((u, j) ∷ s) h e = elim (Bool-cases (j == id)) [
  | inl same ↦ ground arith
  | inr other ↦ rw (listed-has t id s (ground arith) (ground arith)) (ground arith)
]

le-rank : (id : ℕ) (s : List (ℕ × ℕ)) → listed id s ≡ true → 1 ≤ rank id s
le-rank id [] h = absurd (cc h)
le-rank id (p ∷ s) h = elim (Bool-cases (listed id s)) [
  | inl more ↦ rw more (omega arith)
  | inr last ↦ rw last (omega arith)
]

-- Where the first pair is at the head, the second is not.
later :
    (t a u b v j : ℕ) (a_more b_more : Bool)
    → a ≢ b
    → a_more ≡ false
    → (pair_eq (t, a) (v, j) || a_more) ≡ true
    → (pair_eq (u, b) (v, j) || b_more) ≡ true
    → b_more ≡ true
later t a u b v j a_more b_more ne first here there = ground arith

-- Of two pairs in a list in order, the one that is before the other has the lower rank.
pub rank_lt :
    (t a u b : ℕ) (s : List (ℕ × ℕ))
    → InOrder s
    → pair_ltb (t, a) (u, b) ≡ true
    → a ≢ b
    → strays t a s ≡ false
    → any_of (pair_eq (t, a)) s ≡ true
    → any_of (pair_eq (u, b)) s ≡ true
    → rank a s < rank b s
rank_lt t a u b [] h less ne single here there = absurd (cc here)
rank_lt t a u b ((v, j) ∷ s) (above, h) less ne single here there =
    elim (Bool-cases (any_of (pair_eq (t, a)) s)) [
      | inl a_later ↦ elim (Bool-cases (any_of (pair_eq (u, b)) s)) [
        | inl b_later ↦
            let rest = rank_lt t a u b s h less ne (ground arith) a_later b_later in
            rw (has-listed t a s a_later, has-listed u b s b_later) (omega arith)
        | inr b_first ↦
            let before = not_before (v, j) (t, a) s above a_later in absurd (ground arith)
      ]
      | inr a_first ↦
          let b_later : any_of (pair_eq (u, b)) s ≡ true =
            later t a u b v j (any_of (pair_eq (t, a)) s) (any_of (pair_eq (u, b)) s) ne a_first
              here there in
          let last = elim (Bool-cases (listed a s)) as (λ _. listed a s ≡ false) [
            | inl more ↦ absurd (cc (listed-has t a s (ground arith) more, a_first))
            | inr last ↦ last
          ] in
          let listed_b = has-listed u b s b_later in
          rw (last, listed_b) (omega (arith, le-rank b s listed_b))
    ]
