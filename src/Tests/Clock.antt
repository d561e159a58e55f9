-- ===== src/Tests/Clock.antt =====
-- The logical clock at its limit.
use seqcache.Prelude.{ℕ, ◌≡◌, ◌<◌, some, get_key, ◌-◌, ◌^◌, refl, [], ◌∷◌, List, arith}
use seqcache.Word.{u64_max}
use seqcache.Cache.Records.{PrefixEntry, SequenceCache}
use seqcache.Cache.Clock.{lru_of, tick, renormalize}
use seqcache.Cache.Clock.Fresh.{IsClocked, Ticks, tick-Ticks}
use seqcache.Cache.Clock.Order.{renormalize-pair_ltb}
use seqcache.Tests.Runtime.{small_runtime, small_cache}

abbrev entry_used : ℕ → PrefixEntry (List ℕ) ℕ
entry_used time = record {
  key = [];
  blocks = [];
  pages = [];
  position = 0;
  snapshot = 0;
  snapshot_bytes = 0;
  last_used = time;
}

-- Two prefixes, used last in the order opposite to that of their identities.
abbrev old_cache : SequenceCache small_runtime
old_cache = record small_cache {
  prefixes = (3, entry_used (2 ^ 64 - 1)) ∷ (5, entry_used 7) ∷ [];
  lru = (7, 5) ∷ (2 ^ 64 - 1, 3) ∷ [];
  clock = 2 ^ 64 - 1;
}

old_cache-IsClocked : IsClocked old_cache
unfolding u64_max lru_of
old_cache-IsClocked = record {
  ascending = ((omega arith, tt), (tt, tt));
  used = (omega arith, (omega arith, tt));
  fits = omega arith;
  listed = refl;
}

tick-Ticks_example : Ticks old_cache (tick old_cache)
unfolding u64_max
tick-Ticks_example = tick-Ticks old_cache old_cache-IsClocked (omega arith)

-- Prefix 5 was used before prefix 3.
renormalize-pair_ltb_example :
    (t : ℕ) × (u : ℕ) × (get_key 5 (renormalize old_cache).prefixes ≡ some (entry_used t))
    × (get_key 3 (renormalize old_cache).prefixes ≡ some (entry_used u))
    × (t < u)
renormalize-pair_ltb_example =
    renormalize-pair_ltb old_cache 5 3 ((omega arith, tt), (tt, tt)) refl refl refl
