-- ===== src/Index/Prepared.antt =====
-- `prepare_key`, `rollback_key` and `lookup_key` of src/index.rs, against the references that the
-- index counts for each block.
use seqcache.Prelude.{
  ℕ, ◌%◌, ◌<◌, ◌||◌, not, ◌==◌, false, length, Bool-cases, inl, inr, ◌≡◌, refl, sym, subst, ap,
  Option, none, some, List, [], ◌∷◌, arith,
}
use seqcache.Error.{CacheError, Result, ok, err, panic}
use seqcache.Backend.{RadixTree}
use seqcache.Block.{BlockTable, chunks_exact, key_bytes, intern_all, release_blocks}
use seqcache.Block.Linked.{IsLinked, refs_of}
use seqcache.Block.Held.{Gains, Names, Releases, release_blocks-Releases}
use seqcache.Block.Prepared.{Prepares, intern_all-Prepares, Names-known_blocks}
use seqcache.Index.{PrefixIndex, PreparedKey, prepared_key, prepare_key, rollback_key, lookup_key}

-- A key, if it has a block.
abbrev pub key_if : {K : Type 0} → K → List ℕ → Option K
key_if key [] = none
key_if key (id ∷ ids) = some key

found_key :
    {K : Type 0} (finish : List ℕ → K) (ids : List ℕ) (key : K)
    → key ≡ finish (key_bytes ids)
    → (elim ids as (λ _. Option K) [
      | [] ↦ none
      | id ∷ rest ↦ some (finish (key_bytes (id ∷ rest)))
    ])
      ≡ key_if key ids
found_key finish [] key same = refl
found_key finish (id ∷ ids) key same = ap some (sym same)

module _ {T : RadixTree} where
  -- A prepared key has its bytes and names its blocks, whose counts went up; a failure leaves the
  -- counts. The tree stays either way.
  abbrev pub KeyPrepared :
      {E : Type 0}
      → PrefixIndex T
      → List (List ℕ)
      → Result E (PreparedKey T) × PrefixIndex T
      → Type 0
  KeyPrepared x bs (ok p, x') =
      (x'.tree ≡ x.tree)
      × IsLinked x'.table
      × Gains x.table bs x'.table
      × Names x'.table p.blocks bs
      × (p.key ≡ T.finish (key_bytes p.blocks))
  KeyPrepared x bs (err e, x') = (x'.tree ≡ x.tree) × IsLinked x'.table × Gains x.table [] x'.table
  KeyPrepared x bs (panic, x') = ⊥

  prepared_key-KeyPrepared :
      (E : Type 0) (x : PrefixIndex T) (bs : List (List ℕ))
      (r : Result (CacheError E) (List ℕ) × BlockTable)
      → Prepares x.table bs r
      → KeyPrepared x bs (prepared_key x r)
  prepared_key-KeyPrepared E x bs (ok ids, t) (l, gains, names) = (refl, l, gains, names, refl)
  prepared_key-KeyPrepared E x bs (err e, t) (l, gains) = (refl, l, gains)
  prepared_key-KeyPrepared E x bs (panic, t) h = elim h [ ]

  -- On a linked index, for a page of at least one token and a query of whole pages, `prepare_key`
  -- never panics. If it succeeds, the key is made of the identities of
  -- the query's blocks, and the references of each block go up by the number of times the query has
  -- it; if it fails, the references of every block are what they were. Either way the tree stays and
  -- the index is linked.
  pub prepare_key-KeyPrepared :
      (E : Type 0) (x : PrefixIndex T) (tokens : List ℕ) (page_tokens : ℕ)
      → IsLinked x.table
      → 0 < page_tokens
      → length tokens % page_tokens ≡ 0
      → KeyPrepared x (chunks_exact page_tokens tokens) (prepare_key {E = E} tokens page_tokens x)
  unfolding prepare_key
  prepare_key-KeyPrepared E x tokens page_tokens l pos whole =
      let bs = chunks_exact page_tokens tokens in
      let accepted : (page_tokens == 0 || not (length tokens % page_tokens == 0)) ≡ false =
        ground arith in
      rw accepted (
        prepared_key-KeyPrepared E x bs (intern_all bs [] x.table)
          (intern_all-Prepares E bs x.table l))

  -- What a preparation that succeeds has accepted.
  accepted_query :
      (E : Type 0) (x x' : PrefixIndex T) (tokens : List ℕ) (page_tokens : ℕ) (p : PreparedKey T)
      → prepare_key {E = E} tokens page_tokens x ≡ (ok p, x')
      → (0 < page_tokens) × (length tokens % page_tokens ≡ 0)
  unfolding prepare_key
  accepted_query E x x' tokens page_tokens p h =
      elim (Bool-cases (page_tokens == 0 || not (length tokens % page_tokens == 0))) [
        | inl refused ↦ absurd (cc (rw refused at h))
        | inr accepted ↦ (ground arith, ground arith)
      ]

  prepared-KeyPrepared :
      (E : Type 0) (x x' : PrefixIndex T) (tokens : List ℕ) (page_tokens : ℕ) (p : PreparedKey T)
      → IsLinked x.table
      → prepare_key {E = E} tokens page_tokens x ≡ (ok p, x')
      → KeyPrepared {E = CacheError E} x (chunks_exact page_tokens tokens) (ok p, x')
  prepared-KeyPrepared E x x' tokens page_tokens p l h =
      let (pos, whole) = accepted_query E x x' tokens page_tokens p h in
      subst (KeyPrepared x (chunks_exact page_tokens tokens)) h
        (prepare_key-KeyPrepared E x tokens page_tokens l pos whole)

  -- A rollback succeeds, and every count is that of the index `x`.
  abbrev pub RolledBack :
      {E : Type 0} → PrefixIndex T → Result E (Unit {0}) × PrefixIndex T → Type 0
  RolledBack x (ok _, x') =
      (x'.tree ≡ x.tree)
      × IsLinked x'.table
      × ((c : List ℕ) → refs_of x'.table c ≡ refs_of x.table c)
  RolledBack x (err e, x') = ⊥
  RolledBack x (panic, x') = ⊥

  rolled_back :
      (E : Type 0) (x : PrefixIndex T) (bs : List (List ℕ)) (tree : T.Tree) (t : BlockTable)
      (r : Result (CacheError E) (Unit {0}) × BlockTable)
      → tree ≡ x.tree
      → Gains x.table bs t
      → Releases t bs r
      → RolledBack x (r.0, record { tree = tree; table = r.1 })
  rolled_back E x bs tree t (ok _, t') same gains (l, less) =
      (same, l, λ c. omega (arith, gains c, less c))
  rolled_back E x bs tree t (err e, t') same gains h = elim h [ ]
  rolled_back E x bs tree t (panic, t') same gains h = elim h [ ]

  -- On a linked index, the rollback of a prepared key succeeds, and gives back every reference that
  -- `prepare_key` took: the tree and the references of every block are those before it.
  pub rollback_key-prepare_key :
      (E : Type 0) (x x' : PrefixIndex T) (tokens : List ℕ) (page_tokens : ℕ) (p : PreparedKey T)
      → IsLinked x.table
      → prepare_key {E = E} tokens page_tokens x ≡ (ok p, x')
      → RolledBack x (rollback_key {E = E} p x')
  unfolding rollback_key
  rollback_key-prepare_key E x x' tokens page_tokens p l h =
      let bs = chunks_exact page_tokens tokens in
      let (tree, l', gains, names, key) = prepared-KeyPrepared E x x' tokens page_tokens p l h in
      rolled_back E x bs x'.tree x'.table (release_blocks {E = E} p.blocks x'.table) tree gains
        (release_blocks-Releases E p.blocks bs x'.table l' names (λ c. omega (arith, gains c)))

  -- After a key is prepared on a linked index, the same query is looked up to that very key, if
  -- it has a block, and to none otherwise.
  pub lookup_key-prepare_key :
      (E : Type 0) (x x' : PrefixIndex T) (tokens : List ℕ) (page_tokens : ℕ) (p : PreparedKey T)
      → IsLinked x.table
      → prepare_key {E = E} tokens page_tokens x ≡ (ok p, x')
      → lookup_key x' tokens page_tokens ≡ key_if p.key p.blocks
  unfolding lookup_key
  lookup_key-prepare_key E x x' tokens page_tokens p l h =
      let bs = chunks_exact page_tokens tokens in
      let (tree, l', gains, names, key) = prepared-KeyPrepared E x x' tokens page_tokens p l h in
      let known = Names-known_blocks x'.table p.blocks bs names in
      rw (known, lookup_key) (found_key T.finish p.blocks p.key key)
