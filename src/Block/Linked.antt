-- ===== src/Block/Linked.antt =====
-- Interning tables whose two maps agree, and the references that they count for each block.
use seqcache.Prelude.{
  ℕ, ◌+◌, ◌≤◌, ◌<◌, ◌≡◌, inl, inr, refl, sym, subst, ap, ◌∙◌, true, false, Option, none, some, List,
  ◌∷◌, if◌then◌else◌, ◌==◌, Bool-cases, Option-cases, arith, get_key, insert_key, remove_key,
  get_key-insert_key, OnSome, OnSome-intro, OnSome-elim,
}
use seqcache.Word.{usize_max}
use seqcache.Error.{and_then}
use seqcache.Block.{BlockRecord, BlockTable, tokens_eq, get_tokens, remove_tokens}
use seqcache.Block.Tokens.{tokens_eq_cases, tokens_eq_ne}

-- The identity of a block is that of a record with its tokens.
abbrev pub IsNamed : BlockTable → List ℕ → ℕ → Type 0
IsNamed t b id = (r : BlockRecord) × (get_key id t.blocks ≡ some r) × (r.tokens ≡ b)

-- A record is found by its tokens, below the next identity, and has a reference.
abbrev pub IsStored : BlockTable → ℕ → BlockRecord → Type 0
IsStored t id r =
    (get_tokens r.tokens t.by_tokens ≡ some id)
    × (id < t.next_block_id)
    × (0 < r.prefix_refs)
    × (r.prefix_refs ≤ usize_max)

pub record IsLinked (t : BlockTable) : Type 0 where
  pub named : (b : List ℕ) → OnSome (IsNamed t b) (get_tokens b t.by_tokens)
  pub stored : (id : ℕ) → OnSome (IsStored t id) (get_key id t.blocks)

pub by_cases : (i j : ℕ) → (i ≡ j → ⊥) → (i == j) ≡ false
by_cases i j ne = elim (Bool-cases (i == j)) [ inl e ↦ absurd (ne (ground arith)) | inr e ↦ e ]

pub one_fits : 1 ≤ usize_max
unfolding usize_max
one_fits = omega arith

abbrev pub refs_at : Option BlockRecord → ℕ
refs_at none = 0
refs_at (some r) = r.prefix_refs

-- The references to a block: the multiset that a table stands for.
abbrev pub refs_of : BlockTable → List ℕ → ℕ
refs_of t b = refs_at (and_then (get_tokens b t.by_tokens) (λ id. get_key id t.blocks))

abbrev pub with_refs : BlockTable → ℕ → BlockRecord → ℕ → BlockTable
with_refs t id r n = record t { blocks = insert_key id (record r { prefix_refs = n }) t.blocks }

abbrev pub without : BlockTable → ℕ → BlockRecord → BlockTable
without t id r = record t {
  by_tokens = remove_tokens r.tokens t.by_tokens;
  blocks = remove_key id t.blocks;
}

abbrev pub with_block : BlockTable → List ℕ → BlockTable
with_block t b = record {
  by_tokens = (b, t.next_block_id) ∷ t.by_tokens;
  blocks = insert_key t.next_block_id (record { tokens = b; prefix_refs = 1 }) t.blocks;
  next_block_id = t.next_block_id + 1;
}

module _ (t : BlockTable) (l : IsLinked t) where
  pub name_of : (b : List ℕ) {id : ℕ} → get_tokens b t.by_tokens ≡ some id → IsNamed t b id
  name_of b found = OnSome-elim (IsNamed t b) (get_tokens b t.by_tokens) (l.named b) found

  pub store_of : (id : ℕ) {r : BlockRecord} → get_key id t.blocks ≡ some r → IsStored t id r
  store_of id here = OnSome-elim (IsStored t id) (get_key id t.blocks) (l.stored id) here

module _ (t : BlockTable) (l : IsLinked t) (id : ℕ) (r : BlockRecord)
    (at : get_key id t.blocks ≡ some r) where
  pub with_refs-IsLinked : (n : ℕ) → 0 < n → n ≤ usize_max → IsLinked (with_refs t id r n)
  with_refs-IsLinked n pos fits = record {
    named = λ b.
        OnSome-intro (IsNamed (with_refs t id r n) b) (get_tokens b t.by_tokens) (λ j found.
          let (r', here, tokens) = name_of t l b found in
          let read = get_key-insert_key id j (record r { prefix_refs = n }) t.blocks in
          elim (Bool-cases (id == j)) [
            | inl same ↦
                let equal : id ≡ j = ground arith in
                let one : r ≡ r' = cc (at, here, equal) in
                (record r { prefix_refs = n }, read ∙ rw same refl, ap (λ x. x.tokens) one ∙ tokens)
            | inr other ↦ (r', read ∙ rw other here, tokens)
          ]);
    stored = λ j.
        OnSome-intro (IsStored (with_refs t id r n) j) (get_key j (with_refs t id r n).blocks)
          (λ r' here.
            let read = get_key-insert_key id j (record r { prefix_refs = n }) t.blocks in
            elim (Bool-cases (id == j)) [
              | inl same ↦
                  let equal : id ≡ j = ground arith in
                  let (name, below, _, _) = store_of t l id at in
                  let one : record r { prefix_refs = n } ≡ r' = cc (here, rw same at read) in
                  subst (IsStored (with_refs t id r n) j) one
                    (name ∙ ap some equal, omega arith, pos, fits)
              | inr other ↦ store_of t l j (sym (rw other at read) ∙ here)
            ]);
  }

  pub refs_of-with_refs :
      (n : ℕ) (c : List ℕ)
      → refs_of (with_refs t id r n) c ≡ (if tokens_eq r.tokens c then n else refs_of t c)
  refs_of-with_refs n c =
      let name = (store_of t l id at).0 in
      elim (Option-cases (get_tokens c t.by_tokens)) [
        | inl missing ↦
            let apart = tokens_eq_ne r.tokens c (λ e. cc (e, name, missing)) in
            rw (missing, apart) refl
        | inr (j, found) ↦
            let (r', here, tokens) = name_of t l c found in
            let read = get_key-insert_key id j (record r { prefix_refs = n }) t.blocks in
            elim (tokens_eq_cases r.tokens c) [
              | inl (test, same) ↦
                  let equal : id ≡ j = cc (name, found, same) in
                  let here' : (id == j) ≡ true = ground arith in
                  let kept : get_key j (with_refs t id r n).blocks
                      ≡ some (record r { prefix_refs = n }) =
                    read ∙ rw here' refl in
                  rw (found, test) (ap refs_at kept)
              | inr (test, differ) ↦
                  let other : (id == j) ≡ false =
                    by_cases id j (λ e. differ (cc (at, here, e, tokens))) in
                  let kept : get_key j (with_refs t id r n).blocks ≡ get_key j t.blocks =
                    read ∙ rw other refl in
                  rw (found, test) (ap refs_at kept)
            ]
      ]
