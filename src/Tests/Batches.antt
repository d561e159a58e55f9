-- ===== src/Tests/Batches.antt =====
-- Batches of appends at a concrete state, with one pending append of two rows.
use seqcache.Prelude.{◌≡◌, ◌⊎◌, refl, some, [], ◌∷◌, List, All, filter_by, length}
use seqcache.Error.{is_ok}
use seqcache.Arena.{resolve, slot_of}
use seqcache.Cache.Sequences.{sequence_record}
use seqcache.Cache.Records.{AppendReservation, AppendSegment, SequenceCache}
use seqcache.Cache.Append.{validate_reservation}
use seqcache.Cache.Batch.{
  still_pending, pending_append_batch, commit_append_batch, abort_append_batch,
}
use seqcache.Cache.Batch.Pending.{
  IsMatched, AreOfOwnSequences, pending_append_batch_sound, pending_append_batch-exact,
}
use seqcache.Cache.Batch.Checked.{
  AreCommittable, commit_append_batch-checked, abort_append_batch-checked,
}
use seqcache.Tests.Runtime.{small_runtime, small_cache, small_sequence, handle}

-- One row on the tail of the sequence, and one on a new page.
abbrev two_segments : List AppendSegment
two_segments =
    record { page = handle 0; page_offset = 3; input_offset = 0; rows = 1 }
    ∷ record { page = handle 1; page_offset = 0; input_offset = 1; rows = 1 }
    ∷ []

abbrev two_rows : AppendReservation
two_rows = record {
  sequence = handle 0;
  start_position = 3;
  rows = 2;
  segments = two_segments;
  nonce = 0;
}

abbrev other_rows : AppendReservation
other_rows = record two_rows { sequence = handle 7 }

abbrev pending_cache : SequenceCache small_runtime
pending_cache = record small_cache {
  sequences = record {
    slots =
        record {
          generation = 0;
          value = some (record small_sequence {
            reserved_pages = 1;
            pending = some (record {
              start_position = 3;
              rows = 2;
              segments = two_segments;
              new_pages = handle 1 ∷ [];
              nonce = 0;
              transaction = tt;
            });
          });
        }
        ∷ [];
    free = [];
  };
}

-- The reservation matches, and that of a stale sequence does not.
one_pending : pending_append_batch (other_rows ∷ two_rows ∷ []) pending_cache ≡ two_rows ∷ []
unfolding still_pending validate_reservation sequence_record resolve slot_of
one_pending = refl

pending_append_batch_sound_example :
    All (IsMatched pending_cache) (pending_append_batch (other_rows ∷ two_rows ∷ []) pending_cache)
    × AreOfOwnSequences [] (pending_append_batch (other_rows ∷ two_rows ∷ []) pending_cache)
pending_append_batch_sound_example =
    pending_append_batch_sound (other_rows ∷ two_rows ∷ []) pending_cache

pending_append_batch-exact_example :
    pending_append_batch (other_rows ∷ two_rows ∷ []) pending_cache
    ≡ filter_by (λ r. is_ok (validate_reservation r pending_cache)) (other_rows ∷ two_rows ∷ [])
pending_append_batch-exact_example =
    pending_append_batch-exact (other_rows ∷ two_rows ∷ []) pending_cache (refl, (refl, tt))

commit_append_batch-checked_example :
    ((commit_append_batch (two_rows ∷ []) (1 ∷ []) (tt ∷ []) pending_cache).1 ≡ pending_cache)
    ⊎ (AreCommittable pending_cache (two_rows ∷ []) (1 ∷ []) × (length (two_rows ∷ []) ≡ 1))
commit_append_batch-checked_example =
    commit_append_batch-checked (two_rows ∷ []) (1 ∷ []) (tt ∷ []) pending_cache

abort_append_batch-checked_example :
    ((abort_append_batch (two_rows ∷ []) (tt ∷ []) pending_cache).1 ≡ pending_cache)
    ⊎ All (IsMatched pending_cache) (two_rows ∷ [])
abort_append_batch-checked_example =
    abort_append_batch-checked (two_rows ∷ []) (tt ∷ []) pending_cache
