-- ===== src/Block/Altered.antt =====
-- Linked tables without a block, and with one more.
use seqcache.Prelude.{
  ℕ, ◌≡◌, inl, inr, refl, sym, subst, ap, ◌∙◌, true, false, none, some, List, if◌then◌else◌, ◌==◌,
  Bool-cases, Option-cases, arith, get_key, get_key-insert_key, get_key-remove_key, OnSome-intro,
}
use seqcache.Block.{BlockRecord, BlockTable, tokens_eq, get_tokens}
use seqcache.Block.Tokens.{tokens_eq_cases, tokens_eq_self, tokens_eq_ne, get_tokens-remove_tokens}
use seqcache.Block.Linked.{
  IsNamed, IsStored, IsLinked, by_cases, one_fits, refs_at, refs_of, without, with_block, name_of,
  store_of,
}

module _ (t : BlockTable) (l : IsLinked t) (id : ℕ) (r : BlockRecord)
    (at : get_key id t.blocks ≡ some r) where
  pub without-IsLinked : IsLinked (without t id r)
  without-IsLinked = record {
    named = λ b.
        OnSome-intro (IsNamed (without t id r) b) (get_tokens b (without t id r).by_tokens)
          (λ j found.
            let left = get_tokens-remove_tokens r.tokens b t.by_tokens in
            elim (tokens_eq_cases r.tokens b) [
              | inl (test, _) ↦ absurd (cc (found, rw test at left))
              | inr (test, differ) ↦
                  let (r', here, tokens) = name_of t l b (sym (rw test at left) ∙ found) in
                  let other : (id == j) ≡ false =
                    by_cases id j (λ e. differ (cc (at, here, e, tokens))) in
                  (r', get_key-remove_key id j t.blocks ∙ rw other here, tokens)
            ]);
    stored = λ j.
        OnSome-intro (IsStored (without t id r) j) (get_key j (without t id r).blocks) (λ r' here.
          let read = get_key-remove_key id j t.blocks in
          elim (Bool-cases (id == j)) [
            | inl same ↦ absurd (cc (here, rw same at read))
            | inr other ↦
                let (name, below, some_ref, fits) =
                  store_of t l j (sym (rw other at read) ∙ here) in
                let mine = (store_of t l id at).0 in
                let apart =
                  tokens_eq_ne r.tokens r'.tokens
                    (λ e. let same : id ≡ j = cc (e, mine, name) in ground arith) in
                (
                  get_tokens-remove_tokens r.tokens r'.tokens t.by_tokens ∙ rw apart name,
                  below,
                  some_ref,
                  fits,
                )
          ]);
  }

  pub refs_of-without :
      (c : List ℕ) → refs_of (without t id r) c ≡ (if tokens_eq r.tokens c then 0 else refs_of t c)
  refs_of-without c =
      let left = get_tokens-remove_tokens r.tokens c t.by_tokens in
      elim (tokens_eq_cases r.tokens c) [
        | inl (test, _) ↦ rw (rw test at left, test) refl
        | inr (test, differ) ↦ elim (Option-cases (get_tokens c t.by_tokens)) [
          | inl missing ↦ rw (rw test at left, test, missing) refl
          | inr (j, found) ↦
              let (r', here, tokens) = name_of t l c found in
              let other : (id == j) ≡ false =
                by_cases id j (λ e. differ (cc (at, here, e, tokens))) in
              let kept : get_key j (without t id r).blocks ≡ get_key j t.blocks =
                get_key-remove_key id j t.blocks ∙ rw other refl in
              rw (rw test at left, test, found) (ap refs_at kept)
        ]
      ]

module _ (t : BlockTable) (l : IsLinked t) (b : List ℕ)
    (new : get_tokens b t.by_tokens ≡ none) where
  fresh : (j : ℕ) {r : BlockRecord} → get_key j t.blocks ≡ some r → (t.next_block_id == j) ≡ false
  fresh j here = let below = (store_of t l j here).1 in ground arith

  pub with_block-IsLinked : IsLinked (with_block t b)
  with_block-IsLinked = record {
    named = λ c.
        OnSome-intro (IsNamed (with_block t b) c) (get_tokens c (with_block t b).by_tokens)
          (λ j found.
            let read =
              get_key-insert_key t.next_block_id j (record { tokens = b; prefix_refs = 1 })
                t.blocks in
            elim (tokens_eq_cases b c) [
              | inl (test, same) ↦
                  let equal : t.next_block_id ≡ j = cc (rw test at found) in
                  let here' : (t.next_block_id == j) ≡ true = ground arith in
                  (record { tokens = b; prefix_refs = 1 }, read ∙ rw here' refl, same)
              | inr (test, _) ↦
                  let (r', here, tokens) = name_of t l c (rw test at found) in
                  (r', read ∙ rw (fresh j here) here, tokens)
            ]);
    stored = λ j.
        OnSome-intro (IsStored (with_block t b) j) (get_key j (with_block t b).blocks) (λ r' here.
          let read =
            get_key-insert_key t.next_block_id j (record { tokens = b; prefix_refs = 1 })
              t.blocks in
          elim (Bool-cases (t.next_block_id == j)) [
            | inl same ↦
                let equal : t.next_block_id ≡ j = ground arith in
                let one : record { tokens = b; prefix_refs = 1 } ≡ r' =
                  cc (here, rw same at read) in
                subst (IsStored (with_block t b) j) one
                  (rw (tokens_eq_self b) (ap some equal), omega arith, omega arith, one_fits)
            | inr other ↦
                let (name, below, some_ref, fits) =
                  store_of t l j (sym (rw other at read) ∙ here) in
                let apart = tokens_eq_ne b r'.tokens (λ e. cc (e, new, name)) in
                (rw apart name, omega arith, some_ref, fits)
          ]);
  }

  pub refs_of-with_block :
      (c : List ℕ) → refs_of (with_block t b) c ≡ (if tokens_eq b c then 1 else refs_of t c)
  refs_of-with_block c = elim (tokens_eq_cases b c) [
    | inl (test, same) ↦
        let here' : (t.next_block_id == t.next_block_id) ≡ true = ground arith in
        let kept : get_key t.next_block_id (with_block t b).blocks
            ≡ some (record { tokens = b; prefix_refs = 1 }) =
          get_key-insert_key t.next_block_id t.next_block_id
            (record { tokens = b; prefix_refs = 1 }) t.blocks
          ∙ rw here' refl in
        rw test (ap refs_at kept)
    | inr (test, _) ↦ elim (Option-cases (get_tokens c t.by_tokens)) [
      | inl missing ↦ rw (test, missing) refl
      | inr (j, found) ↦
          let (r', here, _) = name_of t l c found in
          let kept : get_key j (with_block t b).blocks ≡ get_key j t.blocks =
            get_key-insert_key t.next_block_id j (record { tokens = b; prefix_refs = 1 }) t.blocks
            ∙ rw (fresh j here) refl in
          rw (test, found) (ap refs_at kept)
    ]
  ]
