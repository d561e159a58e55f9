-- ===== src/Cache/Plan/Distinct.antt =====
-- The pages that a plan of evictions releases, counted once each however often they are released.
use seqcache.Prelude.{
  ℕ, ◌+◌, ◌≡◌, refl, subst, Bool, true, false, List, [], ◌∷◌, any_of, indicator, if◌then◌else◌,
  Bool-cases, inl, inr, arith,
}
use seqcache.Arena.{Handle, handle_eq}
use seqcache.Cache.Plan.{bump, count_of}

abbrev pub occurrences : Handle → List Handle → ℕ
occurrences id [] = 0
occurrences id (j ∷ s) = indicator (handle_eq id j) + occurrences id s

-- How many different pages of a list pass a test.
abbrev pub count_distinct : (Handle → Bool) → List Handle → ℕ
count_distinct f [] = 0
count_distinct f (j ∷ s) =
    if any_of (handle_eq j) s then count_distinct f s else indicator (f j) + count_distinct f s

same_handle : (a b : Handle) → handle_eq a b ≡ true → a ≡ b
same_handle a b h =
    let slot : a.slot ≡ b.slot = ground arith in
    let generation : a.generation ≡ b.generation = ground arith in cc

pub count_of-bump :
    (k id : Handle) (m : List (Handle × ℕ))
    → count_of k (bump id m) ≡ indicator (handle_eq k id) + count_of k m
count_of-bump k id [] = ground arith
count_of-bump k id ((j, n) ∷ m) = let rest = count_of-bump k id m in ground arith

pub absent-occurrences :
    (id : Handle) (s : List Handle) → any_of (handle_eq id) s ≡ false → occurrences id s ≡ 0
absent-occurrences id [] out = refl
absent-occurrences id (j ∷ s) out =
    let rest = absent-occurrences id s (ground arith) in ground arith

-- Two tests that agree but for one page.
module _ (f g : Handle → Bool) (id : Handle)
    (off : (j : Handle) → handle_eq j id ≡ false → f j ≡ g j) where
  pub count_distinct-off :
      (s : List Handle) → any_of (handle_eq id) s ≡ false → count_distinct f s ≡ count_distinct g s
  count_distinct-off [] out = refl
  count_distinct-off (j ∷ s) out =
      let rest = count_distinct-off s (ground arith) in
      let here = off j (ground arith) in rw (here, rest) refl

  pub count_distinct-at :
      (s : List Handle)
      → any_of (handle_eq id) s ≡ true
      → count_distinct f s + indicator (g id) ≡ count_distinct g s + indicator (f id)
  count_distinct-at [] out = absurd (cc out)
  count_distinct-at (j ∷ s) out = elim (Bool-cases (handle_eq id j)) [
    | inl same ↦
        subst
          (λ k.
            count_distinct f (k ∷ s) + indicator (g id)
            ≡ count_distinct g (k ∷ s) + indicator (f id))
          (same_handle id j same)
          (elim (Bool-cases (any_of (handle_eq id) s)) [
            | inl more ↦ rw more (count_distinct-at s more)
            | inr last ↦ let rest = count_distinct-off s last in rw last (omega (arith, rest))
          ])
    | inr other ↦
        let rest = count_distinct-at s (ground arith) in
        let here = off j (ground arith) in
        elim (Bool-cases (any_of (handle_eq j) s)) [
          | inl more ↦ rw more rest
          | inr last ↦ rw (last, here) (omega (arith, rest))
        ]
  ]
