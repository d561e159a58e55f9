-- ===== src/Cache/Sequences.antt =====
-- src/manager.rs: the sequence arena of the cache, with the totals that its records contribute to.
pub mod Accounts
pub mod Removal
use seqcache.Prelude.{ℕ, ◌==◌, if◌then◌else◌}
use seqcache.Word.{u32_max, checked_add, checked_sub, checked_add_to}
use seqcache.Error.{
  CacheError, ok, err, ok_or, and_then, arithmetic_overflow, invariant, stale_sequence,
  id_exhausted,
}
use seqcache.Error
use seqcache.Exec.{pure, lift, reads, modify, ◌>>=◌, ◌>>◌}
use seqcache.Arena.{Handle, slot_of, resolve, write, insert, vacate, prepare_slot}
use seqcache.Backend.{Runtime}
use seqcache.Cache.Records.{SequenceRecord, SequenceCache}
use seqcache.Cache.Monad.{Outcome, Action}
use seqcache.Cache.Refresh.{with_stats}

module _ {R : Runtime} where
  -- `sequence_record`, and `sequence_record_mut` where it only reads.
  unfoldable pub sequence_record :
      Handle → SequenceCache R → Outcome R (SequenceRecord R.AppendTransaction)
  sequence_record id c = ok_or (resolve c.sequences id) stale_sequence

  abbrev pub set_sequence :
      Handle → SequenceRecord R.AppendTransaction → SequenceCache R → SequenceCache R
  set_sequence id s c = record c { sequences = write c.sequences id s }

  abbrev pub set_sequence_totals : ℕ → ℕ → ℕ → SequenceCache R → SequenceCache R
  set_sequence_totals reserved private tables = with_stats (λ s. record s {
    reserved_pages = reserved;
    active_private_state_bytes = private;
    page_table_bytes = tables;
  })

  unfoldable pub prepare_sequence_slot : SequenceCache R → Outcome R (Unit {0})
  prepare_sequence_slot c = prepare_slot "sequence slot" c.sequences

  -- The slot that `insert_sequence` fills.
  unfoldable pub put_in_slot : SequenceRecord R.AppendTransaction → Action R Handle
  put_in_slot value c =
      let (r, sequences) = insert "sequence slot" c.sequences value in
      (r, record c { sequences = sequences })

  unfoldable pub insert_sequence : SequenceRecord R.AppendTransaction → Action R Handle
  unfolding put_in_slot
  insert_sequence value = do
    reserved ←
        reads
          (λ c. ok_or (checked_add c.stats.reserved_pages value.reserved_pages) arithmetic_overflow)
    private ← reads (λ c.
        ok_or (checked_add c.stats.active_private_state_bytes value.private_state_bytes)
          arithmetic_overflow)
    tables ← reads (λ c.
        ok_or (checked_add c.stats.page_table_bytes value.page_table_bytes) arithmetic_overflow)
    id ← put_in_slot value
    modify (set_sequence_totals reserved private tables)
    pure id

  -- `remove_sequence`, once it has found the record and the next generation of its slot.
  unfoldable pub take_sequence :
      Handle → ℕ → SequenceRecord R.AppendTransaction → Action R (Unit {0})
  take_sequence id next value = do
    reserved ← reads (λ c.
        ok_or (checked_sub c.stats.reserved_pages value.reserved_pages)
          (invariant "removed sequence exceeds reserved accounting"))
    private ← reads (λ c.
        ok_or (checked_sub c.stats.active_private_state_bytes value.private_state_bytes)
          (invariant "removed sequence exceeds private-state accounting"))
    tables ← reads (λ c.
        ok_or (checked_sub c.stats.page_table_bytes value.page_table_bytes)
          (invariant "removed sequence exceeds page-table accounting"))
    modify (λ c. record c { sequences = vacate c.sequences id next })
    modify (set_sequence_totals reserved private tables)

  unfoldable pub remove_sequence : Handle → Action R (Unit {0})
  unfolding take_sequence
  remove_sequence id = do
    slot ← reads (λ c. ok_or (slot_of c.sequences id) stale_sequence)
    next ←
        lift (ok_or (checked_add_to u32_max slot.generation 1) (id_exhausted "sequence generation"))
    value ← lift (ok_or slot.value stale_sequence)
    take_sequence id next value

  unfoldable pub prepare_remove_sequence : Handle → SequenceCache R → Outcome R (Unit {0})
  prepare_remove_sequence id c =
      Error.◌>>=◌ (ok_or (slot_of c.sequences id) stale_sequence) (λ slot.
        Error.◌>>=◌ (ok_or slot.value stale_sequence) (λ value.
          if slot.generation == u32_max then err (id_exhausted "sequence generation") else ok tt))
