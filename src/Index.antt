-- ===== src/Index.antt =====
-- src/index.rs: the prefix index, which is a table of interned blocks beside a radix tree from keys
-- to prefix entries. The tree is a parameter.
pub mod Prepared
use seqcache.Prelude.{
  ℕ, ◌*◌, ◌/◌, ◌%◌, ◌||◌, not, Option, none, some, List, [], ◌∷◌, length, ◌==◌, if◌then◌else◌,
}
use seqcache.Error.{CacheError, Result, ok, err, panic, and_then}
use seqcache.Backend.{RadixTree}
use seqcache.Block.{BlockTable, chunks_exact, key_bytes, known_blocks, intern_all, release_blocks}

pub record PrefixIndex (T : RadixTree) : Type 0 where
  pub tree : T.Tree
  pub table : BlockTable
  pub open table use *

pub record PreparedKey (T : RadixTree) : Type 0 where
  pub key : T.Key
  pub blocks : List ℕ

module _ (T : RadixTree) where
  unfoldable pub index_new : PrefixIndex T
  index_new = record {
    tree = T.empty;
    table = record { by_tokens = []; blocks = []; next_block_id = 0 };
  }

module _ {T : RadixTree} where
  unfoldable pub block_count : PrefixIndex T → ℕ
  block_count x = length x.blocks

  -- For a page of at least one token: `chunks_exact` panics for 0.
  unfoldable pub lookup_key : PrefixIndex T → List ℕ → ℕ → Option T.Key
  lookup_key x tokens page_tokens =
      elim (known_blocks x.by_tokens (chunks_exact page_tokens tokens)) [
        | [] ↦ none
        | id ∷ ids ↦ some (T.finish (key_bytes (id ∷ ids)))
      ]

  unfoldable pub longest : PrefixIndex T → T.Key → Option ℕ
  longest x key = T.longest_prefix_value_bytes x.tree (T.as_ref key)

  unfoldable pub exact : PrefixIndex T → List ℕ → ℕ → Option ℕ
  unfolding lookup_key
  exact x tokens page_tokens = and_then (lookup_key x tokens page_tokens) (λ key.
      if length (T.as_ref key) == length tokens / page_tokens * 8
      then T.get_bytes x.tree (T.as_ref key)
      else none)

  unfoldable pub commit_key : PrefixIndex T → PreparedKey T → ℕ → PrefixIndex T
  commit_key x prepared entry = record x { tree = (T.insert_k x.tree prepared.key entry).1 }

module _ {T : RadixTree} {E : Type 0} where
  abbrev prepared_key :
      PrefixIndex T
      → Result (CacheError E) (List ℕ) × BlockTable
      → Result (CacheError E) (PreparedKey T) × PrefixIndex T
  prepared_key x (ok ids, t) =
      (ok (record { key = T.finish (key_bytes ids); blocks = ids }), record x { table = t })
  prepared_key x (err e, t) = (err e, record x { table = t })
  prepared_key x (panic, t) = (panic, record x { table = t })

  -- `debug_assert!(tokens.len().is_multiple_of(page_tokens))`, then `tokens.len() / page_tokens` and
  -- `chunks_exact`, which panic for 0. This is a build with debug assertions.
  unfoldable pub prepare_key :
      List ℕ → ℕ → PrefixIndex T → Result (CacheError E) (PreparedKey T) × PrefixIndex T
  prepare_key tokens page_tokens x =
      if page_tokens == 0 || not (length tokens % page_tokens == 0)
      then (panic, x)
      else prepared_key x (intern_all (chunks_exact page_tokens tokens) [] x.table)

  unfoldable pub rollback_key :
      PreparedKey T → PrefixIndex T → Result (CacheError E) (Unit {0}) × PrefixIndex T
  rollback_key prepared x =
      let (r, t) = release_blocks prepared.blocks x.table in (r, record x { table = t })

  unfoldable pub remove_entry_key :
      T.Key → List ℕ → PrefixIndex T → Result (CacheError E) (Unit {0}) × PrefixIndex T
  remove_entry_key key blocks x =
      let (r, t) = release_blocks blocks x.table in
      (r, record { tree = T.remove_k x.tree key; table = t })
