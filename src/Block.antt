-- ===== src/Block.antt =====
-- The token blocks of src/index.rs: the interning table, which is the part of `PrefixIndex` beside
-- its radix tree. `by_tokens` and `blocks` are association lists.
pub mod Keys
pub mod Tokens
pub mod Linked
pub mod Altered
pub mod Held
pub mod Interned
pub mod Prepared
use seqcache.Prelude.{
  ℕ, zero, suc, ◌/◌, ◌%◌, ◌^◌, Bool, true, false, ◌&&◌, Option, none, some, List, [], ◌∷◌, ◌++◌,
  length, take, drop, leb, ◌==◌, if◌then◌else◌, get_key, insert_key, remove_key,
}
use seqcache.Word.{u64_max, checked_add_to, checked_add, wrapping_pred}
use seqcache.Error.{CacheError, Result, ok, err, panic, arithmetic_overflow, id_exhausted}

abbrev pub tokens_eq : List ℕ → List ℕ → Bool
tokens_eq [] [] = true
tokens_eq (a ∷ as') (b ∷ bs) = a == b && tokens_eq as' bs
tokens_eq _ _ = false

-- `HashMap<Box<[u32]>, TokenBlockId>`: its reads, its insertion of a new key, and its removal.
abbrev pub get_tokens : List ℕ → List (List ℕ × ℕ) → Option ℕ
get_tokens b [] = none
get_tokens b ((c, id) ∷ m) = if tokens_eq c b then some id else get_tokens b m

abbrev pub remove_tokens : List ℕ → List (List ℕ × ℕ) → List (List ℕ × ℕ)
remove_tokens b [] = []
remove_tokens b ((c, id) ∷ m) =
    if tokens_eq c b then remove_tokens b m else (c, id) ∷ remove_tokens b m

pub record BlockRecord : Type 0 where
  pub tokens : List ℕ
  pub prefix_refs : ℕ

pub record BlockTable : Type 0 where
  pub by_tokens : List (List ℕ × ℕ)
  pub blocks : List (ℕ × BlockRecord)
  pub next_block_id : ℕ

-- `tokens.chunks_exact(n)`; the fuel is the number of tokens, and each chunk uses at least one.
unfoldable pub chunks_from : ℕ → ℕ → List ℕ → List (List ℕ)
chunks_from zero n tokens = []
chunks_from (suc fuel) n tokens =
    let rest = take n tokens ∷ chunks_from fuel n (drop n tokens) in
    if leb n (length tokens) then rest else []

abbrev pub chunks_exact : ℕ → List ℕ → List (List ℕ)
chunks_exact n tokens = chunks_from (length tokens) n tokens

-- `id.raw().to_be_bytes()`, the eight bytes of a 64-bit identity, and those of a list of them.
unfoldable pub be_bytes : ℕ → ℕ → List ℕ
be_bytes zero id = []
be_bytes (suc width) id = (id / 256 ^ width % 256) ∷ be_bytes width id

unfoldable pub key_bytes : List ℕ → List ℕ
unfolding be_bytes
key_bytes [] = []
key_bytes (id ∷ ids) = be_bytes 8 id ++ key_bytes ids

-- The leading blocks of a query that are interned, in order.
unfoldable pub known_blocks : List (List ℕ × ℕ) → List (List ℕ) → List ℕ
known_blocks m [] = []
known_blocks m (b ∷ bs) =
    let rest = known_blocks m bs in elim (get_tokens b m) [ none ↦ [] | some id ↦ id ∷ rest ]

-- One round of `release_blocks`: `-= 1` wraps at 0.
unfoldable pub drop_ref : BlockTable → ℕ → BlockRecord → BlockTable
drop_ref t id r =
    let refs = wrapping_pred r.prefix_refs in
    if refs == 0
    then record t {
      by_tokens = remove_tokens r.tokens t.by_tokens;
      blocks = remove_key id t.blocks;
    }
    else record t { blocks = insert_key id (record r { prefix_refs = refs }) t.blocks }

module _ {E : Type 0} where
  unfoldable pub intern_known :
      BlockTable → ℕ → Option BlockRecord → Result (CacheError E) ℕ × BlockTable
  intern_known t id none = (panic, t)
  intern_known t id (some r) = elim (checked_add r.prefix_refs 1) [
    | none ↦ (err arithmetic_overflow, t)
    | some refs ↦
        (ok id, record t { blocks = insert_key id (record r { prefix_refs = refs }) t.blocks })
  ]

  unfoldable pub intern_new : BlockTable → List ℕ → Result (CacheError E) ℕ × BlockTable
  intern_new t block = elim (checked_add_to u64_max t.next_block_id 1) [
    | none ↦ (err (id_exhausted "token block"), t)
    | some next ↦ (
      ok t.next_block_id,
      record {
        by_tokens = (block, t.next_block_id) ∷ t.by_tokens;
        blocks = insert_key t.next_block_id (record { tokens = block; prefix_refs = 1 }) t.blocks;
        next_block_id = next;
      },
    )
  ]

  -- One round of the loop of `prepare_key`.
  unfoldable pub intern : BlockTable → List ℕ → Result (CacheError E) ℕ × BlockTable
  unfolding intern_known intern_new
  intern t block = elim (get_tokens block t.by_tokens) [
    | some id ↦ intern_known t id (get_key id t.blocks)
    | none ↦ intern_new t block
  ]

  unfoldable pub release_blocks :
      List ℕ → BlockTable → Result (CacheError E) (Unit {0}) × BlockTable
  release_blocks [] t = (ok tt, t)
  release_blocks (id ∷ ids) t = elim (get_key id t.blocks) [
    | none ↦ (panic, t)
    | some r ↦ release_blocks ids (drop_ref t id r)
  ]

  -- What a failure inside the loop of `prepare_key` leaves: the blocks so far are released.
  abbrev pub failed_with :
      CacheError E
      → Result (CacheError E) (Unit {0}) × BlockTable
      → Result (CacheError E) (List ℕ) × BlockTable
  failed_with e (ok _, t) = (err e, t)
  failed_with e (err e', t) = (err e', t)
  failed_with e (panic, t) = (panic, t)

  -- The loop of `prepare_key`, with the identities pushed so far.
  unfoldable pub intern_all :
      List (List ℕ) → List ℕ → BlockTable → Result (CacheError E) (List ℕ) × BlockTable
  intern_all [] ids t = (ok ids, t)
  intern_all (b ∷ bs) ids t =
      let (r, t') = intern t b in
      elim r [
        | ok id ↦ intern_all bs (ids ++ id ∷ []) t'
        | err e ↦ failed_with e (release_blocks ids t')
        | panic ↦ (panic, t')
      ]
