-- ===== src/Block/Interned.antt =====
-- The interning of a block by `prepare_key` of src/index.rs, against the multiset of references that a
-- table stands for.
use seqcache.Prelude.{
  ℕ, ◌+◌, ◌≤◌, ◌≡◌, inl, inr, refl, sym, subst, ap, ◌∙◌, Option, none, some, List, [], ◌∷◌,
  if◌then◌else◌, Bool-cases, Option-cases, arith, get_key,
}
use seqcache.Word.{usize_max, u64_max, checked_add, checked_add_to}
use seqcache.Block.Tokens.{tokens_eq_cases, tokens_eq_self, tokens_eq_ne}
use seqcache.Error.{Result, ok, err, panic, arithmetic_overflow, id_exhausted}
use seqcache.Block.{
  BlockRecord, BlockTable, tokens_eq, get_tokens, intern_known, intern_new, intern,
}
use seqcache.Block.Held.{times, Gains, refs_of-at}
use seqcache.Block.Linked.{
  IsLinked, refs_of, with_refs, with_block, name_of, with_refs-IsLinked, refs_of-with_refs,
}
use seqcache.Block.Altered.{with_block-IsLinked, refs_of-with_block}

abbrev pub or_else : {A : Type 0} → Option A → Option A → Option A
or_else none other = other
or_else (some a) other = some a

-- What the interning of a block leaves: the block is named, its count goes up by one, and every name
-- stays; or it fails, and nothing has changed. It does not panic.
abbrev pub Interns : {E : Type 0} → BlockTable → List ℕ → Result E ℕ × BlockTable → Type 0
Interns t b (ok id, t') =
    IsLinked t'
    × Gains t (b ∷ []) t'
    × (get_tokens b t'.by_tokens ≡ some id)
    × ((c : List ℕ)
        → get_tokens c t'.by_tokens
          ≡ or_else (get_tokens c t.by_tokens) (if tokens_eq b c then some id else none))
Interns t b (err e, t') = t' ≡ t
Interns t b (panic, t') = ⊥

named_already :
    (t : BlockTable) (b : List ℕ) (id : ℕ) (c : List ℕ)
    → get_tokens b t.by_tokens ≡ some id
    → get_tokens c t.by_tokens
      ≡ or_else (get_tokens c t.by_tokens) (if tokens_eq b c then some id else none)
named_already t b id c name = elim (Option-cases (get_tokens c t.by_tokens)) [
  | inl missing ↦
      let apart = tokens_eq_ne b c (λ e. cc (e, name, missing)) in rw (missing, apart) refl
  | inr (j, found) ↦ rw found refl
]

named_new :
    (t : BlockTable) (b : List ℕ) (c : List ℕ)
    → get_tokens b t.by_tokens ≡ none
    → get_tokens c (with_block t b).by_tokens
      ≡ or_else (get_tokens c t.by_tokens) (if tokens_eq b c then some t.next_block_id else none)
named_new t b c new = elim (Option-cases (get_tokens c t.by_tokens)) [
  | inl missing ↦ rw missing refl
  | inr (j, found) ↦
      let apart = tokens_eq_ne b c (λ e. cc (e, new, found)) in rw (apart, found) refl
]

counted_once :
    (t : BlockTable) (l : IsLinked t) (id : ℕ) (r : BlockRecord)
    → get_key id t.blocks ≡ some r
    → Gains t (r.tokens ∷ []) (with_refs t id r (r.prefix_refs + 1))
counted_once t l id r at c =
    refs_of-with_refs t l id r at (r.prefix_refs + 1) c ∙ elim (Bool-cases (tokens_eq r.tokens c)) [
      | inl mine ↦ rw (mine, refs_of-at t l id r at c mine) (omega arith)
      | inr other ↦ rw other (omega arith)
    ]

intern_known-Interns :
    (E : Type 0) (t : BlockTable) (b : List ℕ) (id : ℕ)
    → IsLinked t
    → get_tokens b t.by_tokens ≡ some id
    → Interns t b (intern_known {E = E} t id (get_key id t.blocks))
unfolding intern_known
intern_known-Interns E t b id l name =
    let (r, at, tokens) = name_of t l b name in
    elim (Option-cases (checked_add r.prefix_refs 1)) [
      | inl over ↦
          let full : (err arithmetic_overflow, t)
              ≡ intern_known {E = E} t id (get_key id t.blocks) =
            rw (at, over, intern_known) refl in
          subst (Interns t b) full refl
      | inr (n, room) ↦
          let more : n ≡ r.prefix_refs + 1 = ground arith in
          let fits : r.prefix_refs + 1 ≤ usize_max = ground arith in
          let done : (ok id, with_refs t id r (r.prefix_refs + 1))
              ≡ intern_known {E = E} t id (get_key id t.blocks) =
            rw (at, room, more, intern_known) refl in
          subst (Interns t b) done (
            with_refs-IsLinked t l id r at (r.prefix_refs + 1) (omega arith) fits,
            subst (λ x. Gains t (x ∷ []) (with_refs t id r (r.prefix_refs + 1))) tokens
                (counted_once t l id r at),
            name,
            λ c. named_already t b id c name,
          )
    ]

intern_new-Interns :
    (E : Type 0) (t : BlockTable) (b : List ℕ)
    → IsLinked t
    → get_tokens b t.by_tokens ≡ none
    → Interns t b (intern_new {E = E} t b)
unfolding intern_new
intern_new-Interns E t b l new = elim (Option-cases (checked_add_to u64_max t.next_block_id 1)) [
  | inl over ↦
      let full : (err (id_exhausted "token block"), t) ≡ intern_new {E = E} t b =
        rw (over, intern_new) refl in
      subst (Interns t b) full refl
  | inr (n, room) ↦
      let more : n ≡ t.next_block_id + 1 = ground arith in
      let done : (ok t.next_block_id, with_block t b) ≡ intern_new {E = E} t b =
        rw (room, more, intern_new) refl in
      subst (Interns t b) done (
        with_block-IsLinked t l b new,
        (λ c. refs_of-with_block t l b new c ∙ unnamed c),
        rw (tokens_eq_self b) refl,
        λ c. named_new t b c new,
      )
]
  where
    unnamed :
        (c : List ℕ) → (if tokens_eq b c then 1 else refs_of t c) ≡ refs_of t c + times c (b ∷ [])
    unnamed c = elim (tokens_eq_cases b c) [
      | inl (test, same) ↦
          let missing : get_tokens c t.by_tokens ≡ none =
            ap (λ x. get_tokens x t.by_tokens) (sym same) ∙ new in
          rw (test, missing) refl
      | inr (test, _) ↦ rw test (omega arith)
    ]

pub intern-Interns :
    (E : Type 0) (t : BlockTable) (b : List ℕ) → IsLinked t → Interns t b (intern {E = E} t b)
unfolding intern
intern-Interns E t b l = elim (Option-cases (get_tokens b t.by_tokens)) [
  | inl new ↦
      let step : intern_new {E = E} t b ≡ intern t b = rw (new, intern) refl in
      subst (Interns t b) step (intern_new-Interns E t b l new)
  | inr (id, name) ↦
      let step : intern_known {E = E} t id (get_key id t.blocks) ≡ intern t b =
        rw (name, intern) refl in
      subst (Interns t b) step (intern_known-Interns E t b id l name)
]
