-- ===== src/Cache/Clock/Order.antt =====
-- The renormalization of the clock keeps the order in which the prefixes were used last.
use seqcache.Prelude.{
  ℕ, ◌+◌, ◌<◌, ◌≡◌, ◌≢◌, refl, ap, sym, subst, ◌∙◌, true, false, ◌&&◌, not, some, List, [], ◌∷◌,
  ◌==◌, ==_iff, any_of, All, get_key, get_key-insert_key, pair_ltb, pair_eq, Bool-cases,
  Option-cases, inl, inr, arith,
}
use seqcache.Backend.{Runtime}
use seqcache.Cache.Records.{PrefixEntry, SequenceCache}
use seqcache.Cache.Clock.{sort_pairs, stamp, restamp, timestamps, renormalize}
use seqcache.Cache.Clock.Stamped.{IsAscending}
use seqcache.Cache.Clock.Sorted.{
  any_of-sort_pairs, sort_pairs-InOrder, listed, rank, strays, has-listed, rank_lt,
}

module _ {K S : Type 0} where
  stamp_same :
      (id time : ℕ) (m : List (ℕ × PrefixEntry K S)) {e : PrefixEntry K S}
      → get_key id m ≡ some e
      → get_key id (stamp id time m) ≡ some (record e { last_used = time })
  unfolding stamp
  stamp_same id time m {e} at =
      rw (at, stamp)
        (get_key-insert_key id id (record e { last_used = time }) m
          ∙ rw ((==_iff id id).1 refl) refl)

  stamp_other :
      (j id time : ℕ) (m : List (ℕ × PrefixEntry K S))
      → (j == id) ≡ false
      → get_key id (stamp j time m) ≡ get_key id m
  unfolding stamp
  stamp_other j id time m other = elim (Option-cases (get_key j m)) [
    | inl missing ↦ rw (missing, stamp) refl
    | inr (e, at) ↦
        rw (at, stamp) (get_key-insert_key j id (record e { last_used = time }) m ∙ rw other refl)
  ]

  restamp_unlisted :
      (n : ℕ) (order : List (ℕ × ℕ)) (m : List (ℕ × PrefixEntry K S)) (id : ℕ)
      → listed id order ≡ false
      → get_key id (restamp n order m) ≡ get_key id m
  unfolding restamp
  restamp_unlisted n [] m id out = refl
  restamp_unlisted n ((t, j) ∷ order) m id out =
      restamp_unlisted (n + 1) order (stamp j (n + 1) m) id (ground arith)
      ∙ stamp_other j id (n + 1) m (ground arith)

  -- An entry gets the time that its rank says.
  restamp_listed :
      (n : ℕ) (order : List (ℕ × ℕ)) (m : List (ℕ × PrefixEntry K S)) (id : ℕ) {e : PrefixEntry K S}
      → get_key id m ≡ some e
      → listed id order ≡ true
      → get_key id (restamp n order m) ≡ some (record e { last_used = n + rank id order })
  unfolding restamp
  restamp_listed n [] m id at h = absurd (cc h)
  restamp_listed n ((t, j) ∷ order) m id {e} at h = elim (Bool-cases (listed id order)) [
    | inl more ↦ elim (Bool-cases (j == id)) [
      | inl same ↦
          let here : j ≡ id = (==_iff j id).0 same in
          let at' : get_key id (stamp j (n + 1) m) ≡ some (record e { last_used = n + 1 }) =
            subst (λ k. get_key id (stamp k (n + 1) m) ≡ some (record e { last_used = n + 1 }))
              (sym here) (stamp_same id (n + 1) m at) in
          rw more (
            restamp_listed (n + 1) order (stamp j (n + 1) m) id at' more
            ∙ ap (λ x. some (record e { last_used = x })) (omega arith))
      | inr other ↦ rw more (
          restamp_listed (n + 1) order (stamp j (n + 1) m) id
            (stamp_other j id (n + 1) m other ∙ at) more
          ∙ ap (λ x. some (record e { last_used = x })) (omega arith))
    ]
    | inr last ↦
        let here : j ≡ id = ground arith in
        rw last (
          restamp_unlisted (n + 1) order (stamp j (n + 1) m) id last
          ∙ subst (λ k. get_key id (stamp k (n + 1) m) ≡ some (record e { last_used = n + 1 }))
              (sym here) (stamp_same id (n + 1) m at))
  ]

  timestamps-has :
      (id : ℕ) (m : List (ℕ × PrefixEntry K S)) {e : PrefixEntry K S}
      → get_key id m ≡ some e
      → any_of (pair_eq (e.last_used, id)) (timestamps m) ≡ true
  timestamps-has id [] at = absurd (cc at)
  timestamps-has id ((k, d) ∷ m) {e} at = elim (Bool-cases (k == id)) [
    | inl same ↦
        let mine : d ≡ e = cc (rw same at at) in
        let used : d.last_used ≡ e.last_used = ap (λ x. x.last_used) mine in ground (arith, used)
    | inr other ↦ rw (timestamps-has id m (rw other at at)) (ground arith)
  ]

  absent-strays :
      (t id k : ℕ) (m : List (ℕ × PrefixEntry K S))
      → All (λ x. k < x.0) m
      → id ≡ k
      → strays t id (timestamps m) ≡ false
  absent-strays t id k [] above e = refl
  absent-strays t id k ((j, d) ∷ m) (here, there) e =
      let rest = absent-strays t id k m there e in
      let other : (j == id) ≡ false = ground arith in rw (other, rest) refl

  timestamps-strays :
      (id : ℕ) (m : List (ℕ × PrefixEntry K S)) {e : PrefixEntry K S}
      → IsAscending m
      → get_key id m ≡ some e
      → strays e.last_used id (timestamps m) ≡ false
  timestamps-strays id [] up at = refl
  timestamps-strays id ((k, d) ∷ m) {e} (above, up) at = elim (Bool-cases (k == id)) [
    | inl same ↦
        let mine : d ≡ e = cc (rw same at at) in
        let used : (d.last_used == e.last_used) ≡ true =
          (==_iff d.last_used e.last_used).1 (ap (λ x. x.last_used) mine) in
        rw (same, used, absent-strays e.last_used id k m above (ground arith)) refl
    | inr other ↦ rw (other, timestamps-strays id m up (rw other at at)) refl
  ]

  -- An entry keeps all but its time.
  pub renormalized_entry :
      (m : List (ℕ × PrefixEntry K S)) (id : ℕ) {e : PrefixEntry K S}
      → get_key id m ≡ some e
      → (t : ℕ) × (get_key id (restamp 0 (sort_pairs (timestamps m)) m)
          ≡ some (record e { last_used = t }))
  renormalized_entry m id {e} at =
      let order = sort_pairs (timestamps m) in
      let has =
        any_of-sort_pairs (pair_eq (e.last_used, id)) (timestamps m) ∙ timestamps-has id m at in
      (0 + rank id order, restamp_listed 0 order m id at (has-listed e.last_used id order has))

module _ {R : Runtime} where
  -- Of two prefixes, the one that was used last before the other, or at the same time with the lower
  -- identity, has the earlier time after a renormalization, and both keep all but their times.
  pub renormalize-pair_ltb :
      (c : SequenceCache R) (a b : ℕ) {d e : PrefixEntry R.radix.Key R.Snapshot}
      → IsAscending c.prefixes
      → get_key a c.prefixes ≡ some d
      → get_key b c.prefixes ≡ some e
      → pair_ltb (d.last_used, a) (e.last_used, b) ≡ true
      → (t : ℕ) × (u : ℕ) × (get_key a (renormalize c).prefixes ≡ some (record d { last_used = t }))
        × (get_key b (renormalize c).prefixes ≡ some (record e { last_used = u }))
        × (t < u)
  unfolding renormalize
  renormalize-pair_ltb c a b {d} {e} up at at' less =
      let m = c.prefixes in
      let order = sort_pairs (timestamps m) in
      let has =
        any_of-sort_pairs (pair_eq (d.last_used, a)) (timestamps m) ∙ timestamps-has a m at in
      let has' =
        any_of-sort_pairs (pair_eq (e.last_used, b)) (timestamps m) ∙ timestamps-has b m at' in
      let single =
        any_of-sort_pairs (λ q. q.1 == a && not (q.0 == d.last_used)) (timestamps m)
        ∙ timestamps-strays a m up at in
      let apart : a ≢ b = λ same.
        let at_a = subst (λ k. get_key k m ≡ some e) (sym same) at' in
        let alike : d ≡ e = cc (at, at_a) in
        let used : d.last_used ≡ e.last_used = ap (λ x. x.last_used) alike in
        absurd (ground arith) in
      (
        0 + rank a order,
        0 + rank b order,
        restamp_listed 0 order m a at (has-listed d.last_used a order has),
        restamp_listed 0 order m b at' (has-listed e.last_used b order has'),
        omega (
          arith,
          rank_lt d.last_used a e.last_used b order (sort_pairs-InOrder (timestamps m)) less apart
              single has has',
        ),
      )
