-- ===== src/Block/Held.antt =====
-- The loops of `prepare_key` and `release_blocks` of src/index.rs, against the multiset of references
-- that a table stands for.
use seqcache.Prelude.{
  ℕ, suc, ◌+◌, ◌-◌, ◌≤◌, ◌<◌, ◌≡◌, inl, inr, refl, sym, subst, ap, ◌∙◌, true, some, List, [], ◌∷◌,
  ◌==◌, Bool-cases, arith, get_key, indicator,
}
use seqcache.Word.{usize_max, wrapping_pred}
use native.Mathlib.Nat.{mod-eq-sub-mod, mod-eq_of_lt}
use seqcache.Block.Tokens.{tokens_eq_cases, tokens_eq_self, get_tokens-remove_tokens}
use seqcache.Error.{CacheError, Result, ok, err, panic}
use seqcache.Block.{BlockRecord, BlockTable, tokens_eq, get_tokens, drop_ref, release_blocks}
use seqcache.Block.Linked.{
  IsLinked, refs_of, without, name_of, store_of, with_refs-IsLinked, refs_of-with_refs,
}
use seqcache.Block.Altered.{without-IsLinked, refs_of-without}

-- How often a block is among some blocks.
abbrev pub times : List ℕ → List (List ℕ) → ℕ
times c [] = 0
times c (b ∷ bs) = indicator (tokens_eq b c) + times c bs

-- What one interned block, and one reference dropped, mean for the multiset.
abbrev pub Gains : BlockTable → List (List ℕ) → BlockTable → Type 0
Gains t bs t' = (c : List ℕ) → refs_of t' c ≡ refs_of t c + times c bs

wrapping_pred-eq : (n : ℕ) → 0 < n → n ≤ usize_max → wrapping_pred n + 1 ≡ n
wrapping_pred-eq n pos fits = omega (
  arith,
  mod-eq-sub-mod {n = n + usize_max} {m = suc usize_max} (omega arith),
  mod-eq_of_lt {n = n + usize_max - suc usize_max} {m = suc usize_max} (omega arith),
)

-- The names of the blocks that keep a reference.
abbrev pub Keeps : BlockTable → BlockTable → Type 0
Keeps t t' = (c : List ℕ) → 0 < refs_of t' c → get_tokens c t'.by_tokens ≡ get_tokens c t.by_tokens

module _ (t : BlockTable) (l : IsLinked t) (id : ℕ) (r : BlockRecord)
    (at : get_key id t.blocks ≡ some r) where
  pub refs_of-at : (c : List ℕ) → tokens_eq r.tokens c ≡ true → refs_of t c ≡ r.prefix_refs
  refs_of-at c test =
      let name = (store_of t l id at).0 in
      elim (tokens_eq_cases r.tokens c) [
        | inl (_, same) ↦
            let found : get_tokens c t.by_tokens ≡ some id =
              ap (λ x. get_tokens x t.by_tokens) (sym same) ∙ name in
            rw (found, at) refl
        | inr (other, _) ↦ absurd (cc (test, other))
      ]

  without-Keeps : Keeps t (without t id r)
  without-Keeps c held = elim (Bool-cases (tokens_eq r.tokens c)) [
    | inl mine ↦
        let gone : refs_of (without t id r) c ≡ 0 = refs_of-without t l id r at c ∙ rw mine refl in
        absurd (omega (arith, gone, held))
    | inr other ↦ get_tokens-remove_tokens r.tokens c t.by_tokens ∙ rw other refl
  ]

  -- One reference dropped: the table stays linked, and the count of the block goes down by one.
  drop_ref-Gains :
      IsLinked (drop_ref t id r)
      × Gains (drop_ref t id r) (r.tokens ∷ []) t
      × Keeps t (drop_ref t id r)
  unfolding drop_ref
  drop_ref-Gains =
      let (name, below, pos, fits) = store_of t l id at in
      let n : ℕ = wrapping_pred r.prefix_refs in
      let less : n + 1 ≡ r.prefix_refs = wrapping_pred-eq r.prefix_refs pos fits in
      elim (Bool-cases (wrapping_pred r.prefix_refs == 0)) [
        | inl last ↦ rw last (
          without-IsLinked t l id r at,
          (λ c. elim (Bool-cases (tokens_eq r.tokens c)) [
            | inl mine ↦ rw (refs_of-without t l id r at c, mine, refs_of-at c mine) (ground arith)
            | inr other ↦ rw (refs_of-without t l id r at c, other) (omega arith)
          ]),
          without-Keeps,
        )
        | inr more ↦ rw more (
          with_refs-IsLinked t l id r at n (ground arith) (omega arith),
          (λ c. elim (Bool-cases (tokens_eq r.tokens c)) [
            | inl mine ↦
                rw (refs_of-with_refs t l id r at n c, mine, refs_of-at c mine) (omega arith)
            | inr other ↦ rw (refs_of-with_refs t l id r at n c, other) (omega arith)
          ]),
          λ c held. refl,
        )
      ]

-- The identities are those of the blocks, one by one.
abbrev pub Names : BlockTable → List ℕ → List (List ℕ) → Type 0
Names t [] [] = Unit {0}
Names t (id ∷ ids) (b ∷ bs) = (get_tokens b t.by_tokens ≡ some id) × Names t ids bs
Names t _ _ = ⊥

Names-kept :
    (t t' : BlockTable) (ids : List ℕ) (bs : List (List ℕ))
    → ((c : List ℕ) → 0 < times c bs → get_tokens c t'.by_tokens ≡ get_tokens c t.by_tokens)
    → Names t ids bs
    → Names t' ids bs
Names-kept t t' [] [] keep h = tt
Names-kept t t' [] (b ∷ bs) keep h = elim h [ ]
Names-kept t t' (id ∷ ids) [] keep h = elim h [ ]
Names-kept t t' (id ∷ ids) (b ∷ bs) keep (here, there) = (
  keep b (rw (tokens_eq_self b) (omega arith)) ∙ here,
  Names-kept t t' ids bs (λ c among. keep c (omega (arith, among))) there,
)

-- What a release of some blocks leaves: it succeeds, and each block's count goes down by its share.
abbrev pub Releases :
    {E : Type 0} → BlockTable → List (List ℕ) → Result E (Unit {0}) × BlockTable → Type 0
Releases t bs (ok _, t') = IsLinked t' × Gains t' bs t
Releases t bs (err e, t') = ⊥
Releases t bs (panic, t') = ⊥

Releases-more :
    (E : Type 0) (t t' : BlockTable) (b : List ℕ) (bs : List (List ℕ))
    (x : Result (CacheError E) (Unit {0}) × BlockTable)
    → Gains t' (b ∷ []) t
    → Releases t' bs x
    → Releases t (b ∷ bs) x
Releases-more E t t' b bs (ok _, u) one (l, rest) = (l, λ c. omega (arith, one c, rest c))
Releases-more E t t' b bs (err e, u) one h = elim h [ ]
Releases-more E t t' b bs (panic, u) one h = elim h [ ]

release_step :
    (E : Type 0) (id : ℕ) (ids : List ℕ) (t : BlockTable) (r : BlockRecord)
    → get_key id t.blocks ≡ some r
    → release_blocks {E = E} (id ∷ ids) t ≡ release_blocks ids (drop_ref t id r)
unfolding release_blocks
release_step E id ids t r at = rw (at, release_blocks) refl

-- In a linked table, the references that are counted for some blocks can all be released, without a
-- panic, and no others are.
pub release_blocks-Releases :
    (E : Type 0) (ids : List ℕ) (bs : List (List ℕ)) (t : BlockTable)
    → IsLinked t
    → Names t ids bs
    → ((c : List ℕ) → times c bs ≤ refs_of t c)
    → Releases t bs (release_blocks {E = E} ids t)
unfolding release_blocks
release_blocks-Releases E [] [] t l names enough = (l, λ c. omega arith)
release_blocks-Releases E [] (b ∷ bs) t l names enough = elim names [ ]
release_blocks-Releases E (id ∷ ids) [] t l names enough = elim names [ ]
release_blocks-Releases E (id ∷ ids) (b ∷ bs) t l (name, names) enough =
    let (r, at, tokens) = name_of t l b name in
    let (l', less, keeps) = drop_ref-Gains t l id r at in
    let t' = drop_ref t id r in
    let gains : Gains t' (b ∷ []) t = subst (λ x. Gains t' (x ∷ []) t) tokens less in
    let names' =
      Names-kept t t' ids bs (λ c among. keeps c (omega (arith, gains c, enough c, among))) names in
    let rest =
      release_blocks-Releases E ids bs t' l' names' (λ c. omega (arith, gains c, enough c)) in
    subst (Releases t (b ∷ bs)) (sym (release_step E id ids t r at))
      (Releases-more E t t' b bs (release_blocks ids t') gains rest)
