-- ===== src/Cache/Clock/Fresh.antt =====
-- The times that `tick` gives out, also where the clock is at its limit and the times start again.
use seqcache.Prelude.{
  ℕ, ◌+◌, ◌≤◌, ◌<◌, ◌≡◌, refl, List, [], ◌∷◌, length, ◌==◌, All, some, get_key, Bool-cases, inl,
  inr, arith,
}
use seqcache.Word.{u64_max}
use seqcache.Backend.{Runtime}
use seqcache.Cache.Records.{PrefixEntry, SequenceCache}
use seqcache.Cache.Clock.{sort_pairs, restamp, timestamps, lru_of, renormalize, tick}
use seqcache.Cache.Clock.Order.{renormalized_entry}
use seqcache.Cache.Clock.Stamped.{IsAscending, renormalized-Restamped}

module _ {K S : Type 0} where
  used_before :
      (n k : ℕ) (m : List (ℕ × PrefixEntry K S))
      → n < k
      → All (λ x. x.1.last_used ≤ n) m
      → All (λ x. x.1.last_used < k) m
  used_before n k [] less h = tt
  used_before n k (x ∷ m) less (here, there) = (omega arith, used_before n k m less there)

  used_within :
      (n k : ℕ) (m : List (ℕ × PrefixEntry K S))
      → n ≤ k
      → All (λ x. x.1.last_used ≤ n) m
      → All (λ x. x.1.last_used ≤ k) m
  used_within n k [] le h = tt
  used_within n k (x ∷ m) le (here, there) = (omega arith, used_within n k m le there)

module _ {R : Runtime} where
  -- The entries in the order of their keys, none used after the clock, and the order of their use.
  pub record IsClocked (c : SequenceCache R) : Type 0 where
    pub ascending : IsAscending c.prefixes
    pub used : All (λ x. x.1.last_used ≤ c.clock) c.prefixes
    pub fits : c.clock ≤ u64_max
    pub listed : c.lru ≡ lru_of (timestamps c.prefixes)

  -- The time that is given out is the clock's, and later than every use; every prefix is there with
  -- all but its time.
  abbrev pub Ticks : SequenceCache R → ℕ × SequenceCache R → Type 0
  Ticks c (t, c') =
      IsClocked c'
      × (t ≡ c'.clock)
      × All (λ x. x.1.last_used < t) c'.prefixes
      × (length c'.prefixes ≡ length c.prefixes)
      × ((id : ℕ) (e : PrefixEntry R.radix.Key R.Snapshot)
          → get_key id c.prefixes ≡ some e
          → (u : ℕ) × (get_key id c'.prefixes ≡ some (record e { last_used = u })))

  -- On a cache with its clock in order and fewer prefixes than the clock can count, `tick` gives out a
  -- time that fits in 64 bits and is later than the last use of every prefix, also where the clock
  -- is at its limit; the clock stays in order, no prefix is added, and every prefix keeps its identity
  -- and all its data but the time of its last use.
  pub tick-Ticks :
      (c : SequenceCache R) → IsClocked c → length c.prefixes < u64_max → Ticks c (tick c)
  unfolding tick renormalize
  tick-Ticks c k few = elim (Bool-cases (c.clock == u64_max)) [
    | inl full ↦
        let (up, size, all) = renormalized-Restamped c.prefixes k.ascending in
        let m = restamp 0 (sort_pairs (timestamps c.prefixes)) c.prefixes in
        let later = used_before (length c.prefixes) (length m + 1) m (omega (arith, size)) all in
        rw full (
          record {
            ascending = up;
            used = used_within (length c.prefixes) (length m + 1) m (omega (arith, size)) all;
            fits = omega (arith, size);
            listed = refl;
          },
          refl,
          later,
          size,
          λ id e at. renormalized_entry c.prefixes id at,
        )
    | inr room ↦ rw room (
      record {
        ascending = k.ascending;
        used = used_within c.clock (c.clock + 1) c.prefixes (omega arith) k.used;
        fits = ground (arith, k.fits);
        listed = k.listed;
      },
      refl,
      used_before c.clock (c.clock + 1) c.prefixes (omega arith) k.used,
      refl,
      λ id e at. (e.last_used, at),
    )
  ]
