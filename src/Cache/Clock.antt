-- ===== src/Cache/Clock.antt =====
-- src/manager.rs: the logical clock of the LRU order, with its renormalization, and the refresh of
-- an entry's position in the order.
pub mod Stamped
pub mod Fresh
pub mod Sorted
pub mod Order
use seqcache.Prelude.{
  ℕ, ◌+◌, none, some, List, [], ◌∷◌, map, length, ◌==◌, if◌then◌else◌, get_key, insert_key,
  pair_ltb, insert_pair, remove_pair,
}
use seqcache.Word.{u64_max}
use seqcache.Backend.{Runtime}
use seqcache.Cache.Records.{PrefixEntry, SequenceCache}

-- `sort_by_key(|(id, timestamp)| (*timestamp, *id))`, on pairs of a timestamp and an identity.
unfoldable pub insert_sorted : ℕ × ℕ → List (ℕ × ℕ) → List (ℕ × ℕ)
insert_sorted p [] = p ∷ []
insert_sorted p (q ∷ s) = if pair_ltb p q then p ∷ q ∷ s else q ∷ insert_sorted p s

unfoldable pub sort_pairs : List (ℕ × ℕ) → List (ℕ × ℕ)
unfolding insert_sorted
sort_pairs [] = []
sort_pairs (p ∷ s) = insert_sorted p (sort_pairs s)

module _ {K S : Type 0} where
  -- An identity that has an entry gets the given timestamp; those given are the keys of the map.
  unfoldable pub stamp : ℕ → ℕ → List (ℕ × PrefixEntry K S) → List (ℕ × PrefixEntry K S)
  stamp id time m = elim (get_key id m) [
    | none ↦ m
    | some e ↦ insert_key id (record e { last_used = time }) m
  ]

  -- `order.into_iter().enumerate()`, with the index so far.
  unfoldable pub restamp :
      ℕ → List (ℕ × ℕ) → List (ℕ × PrefixEntry K S) → List (ℕ × PrefixEntry K S)
  unfolding stamp
  restamp index [] m = m
  restamp index ((t, id) ∷ order) m = restamp (index + 1) order (stamp id (index + 1) m)

  abbrev pub timestamps : List (ℕ × PrefixEntry K S) → List (ℕ × ℕ)
  timestamps = map (λ e. (e.1.last_used, e.0))

-- `.collect()` into a `BTreeSet`.
unfoldable pub lru_of : List (ℕ × ℕ) → List (ℕ × ℕ)
lru_of [] = []
lru_of (p ∷ s) = insert_pair p (lru_of s)

module _ {R : Runtime} where
  unfoldable pub renormalize : SequenceCache R → SequenceCache R
  unfolding sort_pairs restamp lru_of
  renormalize c =
      let prefixes = restamp 0 (sort_pairs (timestamps c.prefixes)) c.prefixes in
      record c { prefixes = prefixes; clock = length prefixes; lru = lru_of (timestamps prefixes) }

  abbrev pub advance : SequenceCache R → ℕ × SequenceCache R
  advance c = (c.clock + 1, record c { clock = c.clock + 1 })

  -- `tick`
  unfoldable pub tick : SequenceCache R → ℕ × SequenceCache R
  unfolding renormalize
  tick c = advance (if c.clock == u64_max then renormalize c else c)

  -- What `lookup_prefix` and `retain_prefix` do to the entry that they find.
  unfoldable pub refresh_entry :
      ℕ → ℕ → PrefixEntry R.radix.Key R.Snapshot → SequenceCache R → SequenceCache R
  refresh_entry clock id e c = record c {
    prefixes = insert_key id (record e { last_used = clock }) c.prefixes;
    lru = insert_pair (clock, id) (remove_pair (e.last_used, id) c.lru);
  }
