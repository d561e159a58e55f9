-- ===== src/Tests/Keys.antt =====
-- Keys of the prefix index, at concrete token lists.
use seqcache.Prelude.{ℕ, ◌≡◌, ◌↔◌, refl, some, List, [], ◌∷◌, arith}
use seqcache.Word.{u64_max, usize_max}
use seqcache.Error.{CacheError, ok}
use seqcache.Block.{
  key_bytes, be_bytes, chunks_exact, chunks_from, intern_all, intern, intern_known, intern_new,
}
use seqcache.Block.Keys.{IsPrefix, ids_of, ids_of-key_bytes, key_bytes-prefix_iff}
use seqcache.Block.Linked.{IsLinked}
use seqcache.Index.{PrefixIndex, PreparedKey, prepare_key, rollback_key, lookup_key}
use seqcache.Index.Prepared.{
  KeyPrepared, RolledBack, prepare_key-KeyPrepared, rollback_key-prepare_key,
  lookup_key-prepare_key,
}
use seqcache.Tests.Runtime.{listed_keys}

abbrev query : List ℕ
query = 7 ∷ 8 ∷ 7 ∷ 8 ∷ []

ids_of-key_bytes_example : ids_of 2 (key_bytes (300 ∷ 4 ∷ [])) ≡ 300 ∷ 4 ∷ []
unfolding u64_max key_bytes
ids_of-key_bytes_example = ids_of-key_bytes (300 ∷ 4 ∷ []) [] (omega arith, (omega arith, tt))

key_bytes-prefix_iff_example :
    IsPrefix (key_bytes (300 ∷ [])) (key_bytes (300 ∷ 4 ∷ [])) ↔ IsPrefix (300 ∷ []) (300 ∷ 4 ∷ [])
unfolding u64_max
key_bytes-prefix_iff_example =
    key_bytes-prefix_iff (300 ∷ []) (300 ∷ 4 ∷ []) (omega arith, tt)
      (omega arith, (omega arith, tt))

abbrev empty_index : PrefixIndex listed_keys
empty_index = record {
  tree = [];
  table = record { by_tokens = []; blocks = []; next_block_id = 0 };
}

empty_index-IsLinked : IsLinked empty_index.table
empty_index-IsLinked = record { named = λ b. tt; stored = λ id. tt }

prepare_key-KeyPrepared_example :
    KeyPrepared {E = CacheError (Unit {0})} empty_index
      (chunks_exact 2 query)
      (prepare_key query 2 empty_index)
prepare_key-KeyPrepared_example =
    prepare_key-KeyPrepared (Unit {0}) empty_index query 2 empty_index-IsLinked (omega arith) refl

-- The query has its block twice.
abbrev one_block : PrefixIndex listed_keys
one_block = record {
  tree = [];
  table = record {
    by_tokens = (7 ∷ 8 ∷ [], 0) ∷ [];
    blocks = (0, record { tokens = 7 ∷ 8 ∷ []; prefix_refs = 2 }) ∷ [];
    next_block_id = 1;
  };
}

abbrev query_key : PreparedKey listed_keys
query_key = record {
  key = 0 ∷ 0 ∷ 0 ∷ 0 ∷ 0 ∷ 0 ∷ 0 ∷ 0 ∷ 0 ∷ 0 ∷ 0 ∷ 0 ∷ 0 ∷ 0 ∷ 0 ∷ 0 ∷ [];
  blocks = 0 ∷ 0 ∷ [];
}

query_prepared : prepare_key {E = Unit {0}} query 2 empty_index ≡ (ok query_key, one_block)
unfolding prepare_key intern_all intern intern_known intern_new chunks_from key_bytes be_bytes
    u64_max usize_max
query_prepared = refl

rollback_key-prepare_key_example :
    RolledBack {E = CacheError (Unit {0})} empty_index (rollback_key query_key one_block)
rollback_key-prepare_key_example =
    rollback_key-prepare_key (Unit {0}) empty_index one_block query 2 query_key empty_index-IsLinked
      query_prepared

lookup_key-prepare_key_example : lookup_key one_block query 2 ≡ some (query_key.key)
lookup_key-prepare_key_example =
    lookup_key-prepare_key (Unit {0}) empty_index one_block query 2 query_key empty_index-IsLinked
      query_prepared
