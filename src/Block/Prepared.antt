-- ===== src/Block/Prepared.antt =====
-- The loop of `prepare_key` of src/index.rs over the blocks of a key, with the release of the blocks
-- so far when it fails.
use seqcache.Prelude.{
  ℕ, ◌+◌, ◌≡◌, refl, sym, subst, ap, ◌∙◌, Option, none, some, List, [], ◌∷◌, ◌++◌, if◌then◌else◌,
  arith,
}
use mathlib.Core.List.{append-nil, append_assoc}
use seqcache.Error.{CacheError, Result, ok, err, panic}
use seqcache.Block.{
  BlockTable, tokens_eq, get_tokens, intern, release_blocks, intern_all, failed_with, known_blocks,
}
use seqcache.Block.Linked.{IsLinked}
use seqcache.Block.Held.{times, Gains, Names, Releases, release_blocks-Releases}
use seqcache.Block.Interned.{or_else, Interns, intern-Interns}

times-append : (c : List ℕ) (xs ys : List (List ℕ)) → times c (xs ++ ys) ≡ times c xs + times c ys
times-append c [] ys = omega arith
times-append c (x ∷ xs) ys = omega (arith, times-append c xs ys)

Names-append :
    (t : BlockTable) (ids : List ℕ) (bs : List (List ℕ)) (b : List ℕ) {id : ℕ}
    → Names t ids bs
    → get_tokens b t.by_tokens ≡ some id
    → Names t (ids ++ id ∷ []) (bs ++ b ∷ [])
Names-append t [] [] b h name = (name, tt)
Names-append t [] (x ∷ bs) b h name = elim h [ ]
Names-append t (i ∷ ids) [] b h name = elim h [ ]
Names-append t (i ∷ ids) (x ∷ bs) b (here, there) name = (here, Names-append t ids bs b there name)

-- Names stay when a table only gains names.
Names-mono :
    (t t' : BlockTable) (other : List ℕ → Option ℕ) (ids : List ℕ) (bs : List (List ℕ))
    → ((c : List ℕ) → get_tokens c t'.by_tokens ≡ or_else (get_tokens c t.by_tokens) (other c))
    → Names t ids bs
    → Names t' ids bs
Names-mono t t' other [] [] keep h = tt
Names-mono t t' other [] (x ∷ bs) keep h = elim h [ ]
Names-mono t t' other (i ∷ ids) [] keep h = elim h [ ]
Names-mono t t' other (i ∷ ids) (x ∷ bs) keep (here, there) =
    (keep x ∙ rw here refl, Names-mono t t' other ids bs keep there)

-- What the interning of some blocks leaves: the blocks are named by the identities, and each one's
-- count goes up by its share; or it fails, and every count is what it was. It does not panic.
abbrev pub Prepares :
    {E : Type 0} → BlockTable → List (List ℕ) → Result E (List ℕ) × BlockTable → Type 0
Prepares t bs (ok ids, t') = IsLinked t' × Gains t bs t' × Names t' ids bs
Prepares t bs (err e, t') = IsLinked t' × Gains t [] t'
Prepares t bs (panic, t') = ⊥

failed_with-Prepares :
    (E : Type 0) (start t : BlockTable) (held all : List (List ℕ)) (e : CacheError E)
    (x : Result (CacheError E) (Unit {0}) × BlockTable)
    → Gains start held t
    → Releases t held x
    → Prepares start all (failed_with e x)
failed_with-Prepares E start t held all e (ok _, t') gained (l, less) =
    (l, λ c. omega (arith, gained c, less c))
failed_with-Prepares E start t held all e (err e', t') gained h = elim h [ ]
failed_with-Prepares E start t held all e (panic, t') gained h = elim h [ ]

-- One round of the loop, and the rest of it.
abbrev next :
    {E : Type 0}
    → List (List ℕ)
    → List ℕ
    → Result (CacheError E) ℕ × BlockTable
    → Result (CacheError E) (List ℕ) × BlockTable
next bs ids (ok id, t') = intern_all bs (ids ++ id ∷ []) t'
next bs ids (err e, t') = failed_with e (release_blocks ids t')
next bs ids (panic, t') = (panic, t')

-- The loop, with the blocks so far counted in the table.
abbrev Continues : Type 0 → List (List ℕ) → Type 0
Continues E bs =
    (ids : List ℕ) (held : List (List ℕ)) (start t : BlockTable)
    → IsLinked t
    → Gains start held t
    → Names t ids held
    → Prepares start (held ++ bs) (intern_all {E = E} bs ids t)

next-Prepares :
    (E : Type 0) (b : List ℕ) (bs : List (List ℕ)) (ids : List ℕ) (held : List (List ℕ))
    (start t : BlockTable) (x : Result (CacheError E) ℕ × BlockTable)
    → Continues E bs
    → IsLinked t
    → Gains start held t
    → Names t ids held
    → Interns t b x
    → Prepares start (held ++ b ∷ bs) (next bs ids x)
next-Prepares E b bs ids held start t (ok id, t') rest l gained names (l', more, name, keep) =
    subst (λ all. Prepares start all (intern_all {E = E} bs (ids ++ id ∷ []) t'))
      (append_assoc held (b ∷ []) bs)
      (rest (ids ++ id ∷ []) (held ++ b ∷ []) start t' l'
        (λ c. omega (arith, gained c, more c, times-append c held (b ∷ [])))
        (Names-append t' ids held b
          (Names-mono t t' (λ c. if tokens_eq b c then some id else none) ids held keep names)
          name))
next-Prepares E b bs ids held start t (err e, t') rest l gained names same =
    failed_with-Prepares E start t held (held ++ b ∷ bs) e (release_blocks {E = E} ids t') gained (
      subst (λ x. Releases t held (release_blocks {E = E} ids x)) (sym same)
        (release_blocks-Releases E ids held t l names (λ c. omega (arith, gained c))))
next-Prepares E b bs ids held start t (panic, t') rest l gained names h = elim h [ ]

next_lem :
    (E : Type 0) (bs : List (List ℕ)) (ids : List ℕ) (x : Result (CacheError E) ℕ × BlockTable)
    → next bs ids x ≡ (elim x.0 [
      | ok id ↦ intern_all bs (ids ++ id ∷ []) x.1
      | err e ↦ failed_with e (release_blocks ids x.1)
      | panic ↦ (panic, x.1)
    ])
next_lem E bs ids (ok id, t) = refl
next_lem E bs ids (err e, t) = refl
next_lem E bs ids (panic, t) = refl

intern_all-Continues : (E : Type 0) (bs : List (List ℕ)) → Continues E bs
unfolding intern_all
intern_all-Continues E [] ids held start t l gained names =
    subst (λ all. Prepares {E = CacheError E} start all (ok ids, t)) (sym (append-nil held))
      (l, gained, names)
intern_all-Continues E (b ∷ bs) ids held start t l gained names =
    let round =
      next-Prepares E b bs ids held start t (intern {E = E} t b) (intern_all-Continues E bs) l
        gained names (intern-Interns E t b l) in
    subst (Prepares start (held ++ b ∷ bs)) (next_lem E bs ids (intern {E = E} t b)) round

-- From a linked table, the loop either interns every block, or leaves every count as it was.
pub intern_all-Prepares :
    (E : Type 0) (bs : List (List ℕ)) (t : BlockTable)
    → IsLinked t
    → Prepares t bs (intern_all {E = E} bs [] t)
intern_all-Prepares E bs t l = intern_all-Continues E bs [] [] t t l (λ c. omega arith) tt

-- Blocks that are all named are all found.
pub Names-known_blocks :
    (t : BlockTable) (ids : List ℕ) (bs : List (List ℕ))
    → Names t ids bs
    → known_blocks t.by_tokens bs ≡ ids
unfolding known_blocks
Names-known_blocks t [] [] h = refl
Names-known_blocks t [] (b ∷ bs) h = elim h [ ]
Names-known_blocks t (id ∷ ids) [] h = elim h [ ]
Names-known_blocks t (id ∷ ids) (b ∷ bs) (here, there) =
    rw (here, known_blocks) (ap (◌∷◌ id) (Names-known_blocks t ids bs there))
