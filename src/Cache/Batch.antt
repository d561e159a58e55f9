-- ===== src/Cache/Batch.antt =====
-- src/manager.rs: the batch operations on appends, and the error that owns what remains pending.
pub mod Pending
pub mod Checked
use seqcache.Prelude.{
  ℕ, suc, ◌&&◌, ◌||◌, not, Option, none, some, List, [], ◌∷◌, ◌++◌, length, ltb, ◌==◌,
  if◌then◌else◌, any_of,
}
use seqcache.Error.{
  CacheError, Result, ok, err, panic, invalid_position, append_batch_size_mismatch, is_ok,
}
use seqcache.Exec.{Exec}
use seqcache.Arena.{Handle, handle_eq}
use seqcache.Backend.{Runtime}
use seqcache.Cache.Records.{AppendReservation, SequenceCache}
use seqcache.Cache.Monad.{Outcome, Action}
use seqcache.Cache.Append.{reserve_append, validate_reservation}
use seqcache.Cache.Commit.{commit_append}
use seqcache.Cache.Abort.{abort_append}

pub record AppendBatchRequest : Type 0 where
  pub sequence : Handle
  pub rows : ℕ

pub record AppendBatchError (E : Type 0) : Type 0 where
  pub error : CacheError E
  pub pending : List AppendReservation
  pub failed_index : Option ℕ

abbrev pub BatchAction : Runtime → Type 0 → Type 0
BatchAction R A = Exec (AppendBatchError R.BackendError) (SequenceCache R) A

abbrev pub batch_error :
    {E A : Type 0}
    → CacheError E
    → List AppendReservation
    → Option ℕ
    → Result (AppendBatchError E) A
batch_error e pending index = err (record { error = e; pending = pending; failed_index = index })

-- The second loop runs if the first found nothing.
abbrev pub then_loop :
    {E S : Type 0}
    → (S → Result E (Unit {0}) × S)
    → Result E (Unit {0}) × S
    → Result E (Unit {0}) × S
then_loop rest (ok _, c) = rest c
then_loop rest (err e, c) = (err e, c)
then_loop rest (panic, c) = (panic, c)

module _ {R : Runtime} where
  -- The calls of one item use the item's context.
  abbrev pub entered : {A : Type 0} → R.Context → Action R A → Action R A
  entered x m c = m (record c { backend = R.enter x c.backend })

  -- The reservations that still match a pending append, the first for each sequence. `seen` is the
  -- set of the sequences so far.
  unfoldable pub still_pending :
      List Handle → List AppendReservation → SequenceCache R → List AppendReservation
  still_pending seen [] c = []
  still_pending seen (r ∷ rs) c =
      let rest = still_pending (r.sequence ∷ seen) rs c in
      if not (any_of (handle_eq r.sequence) seen) && is_ok (validate_reservation r c)
      then r ∷ rest
      else rest

  abbrev pub pending_append_batch :
      List AppendReservation → SequenceCache R → List AppendReservation
  pending_append_batch rs c = still_pending [] rs c

  abbrev pub reserved_next :
      ℕ
      → List AppendReservation
      → (List AppendReservation → BatchAction R (List AppendReservation))
      → Outcome R AppendReservation × SequenceCache R
      → Result (AppendBatchError R.BackendError) (List AppendReservation) × SequenceCache R
  reserved_next index done rest (ok r, c) = rest (done ++ r ∷ []) c
  reserved_next index done rest (err e, c) = (batch_error e done (some index), c)
  reserved_next index done rest (panic, c) = (panic, c)

  -- The loop of `reserve_append_batch`, with the index and the reservations so far.
  unfoldable pub reserve_each :
      ℕ
      → List AppendReservation
      → List AppendBatchRequest
      → List R.Context
      → BatchAction R (List AppendReservation)
  reserve_each index done [] xs c = (ok done, c)
  reserve_each index done (q ∷ qs) [] c = (ok done, c)
  reserve_each index done (q ∷ qs) (x ∷ xs) c =
      reserved_next index done (λ done' c'. reserve_each (suc index) done' qs xs c')
        (entered x (reserve_append q.sequence q.rows) c)

  unfoldable pub reserve_append_batch :
      List AppendBatchRequest → List R.Context → BatchAction R (List AppendReservation)
  unfolding reserve_each
  reserve_append_batch requests contexts c =
      if length requests == length contexts
      then reserve_each 0 [] requests contexts c
      else (batch_error append_batch_size_mismatch [] none, c)

  -- An answer for one item of a commit or an abort of the batch `all`.
  abbrev pub settled_next :
      ℕ
      → List AppendReservation
      → BatchAction R (Unit {0})
      → Outcome R (Unit {0}) × SequenceCache R
      → Result (AppendBatchError R.BackendError) (Unit {0}) × SequenceCache R
  settled_next index all rest (ok _, c) = rest c
  settled_next index all rest (err e, c) =
      (batch_error e (pending_append_batch all c) (some index), c)
  settled_next index all rest (panic, c) = (panic, c)

  abbrev pub check_rows : AppendReservation → ℕ → SequenceCache R → Outcome R (Unit {0})
  check_rows r rows c = elim (validate_reservation r c) [
    | ok _ ↦ if rows == 0 || ltb r.rows rows then err invalid_position else ok tt
    | err e ↦ err e
    | panic ↦ panic
  ]

  -- The loop that checks every item before the first commit.
  unfoldable pub check_each :
      ℕ → List AppendReservation → List AppendReservation → List ℕ → BatchAction R (Unit {0})
  check_each index all (r ∷ rs) (n ∷ ns) c =
      settled_next index all (λ c'. check_each (suc index) all rs ns c') (check_rows r n c, c)
  check_each index all _ _ c = (ok tt, c)

  unfoldable pub commit_each :
      ℕ
      → List AppendReservation
      → List AppendReservation
      → List ℕ
      → List R.Context
      → BatchAction R (Unit {0})
  commit_each index all (r ∷ rs) (n ∷ ns) (x ∷ xs) c =
      settled_next index all (λ c'. commit_each (suc index) all rs ns xs c')
        (entered x (commit_append r n) c)
  commit_each index all _ _ _ c = (ok tt, c)

  unfoldable pub commit_append_batch :
      List AppendReservation → List ℕ → List R.Context → BatchAction R (Unit {0})
  unfolding check_each commit_each
  commit_append_batch rs rows contexts c =
      if length rs == length rows && length rs == length contexts
      then then_loop (commit_each 0 rs rs rows contexts) (check_each 0 rs rs rows c)
      else (batch_error append_batch_size_mismatch (pending_append_batch rs c) none, c)

  unfoldable pub validate_each :
      ℕ → List AppendReservation → List AppendReservation → BatchAction R (Unit {0})
  validate_each index all [] c = (ok tt, c)
  validate_each index all (r ∷ rs) c =
      settled_next index all (λ c'. validate_each (suc index) all rs c')
        (validate_reservation r c, c)

  unfoldable pub abort_each :
      ℕ
      → List AppendReservation
      → List AppendReservation
      → List R.Context
      → BatchAction R (Unit {0})
  abort_each index all (r ∷ rs) (x ∷ xs) c =
      settled_next index all (λ c'. abort_each (suc index) all rs xs c')
        (entered x (abort_append r) c)
  abort_each index all _ _ c = (ok tt, c)

  unfoldable pub abort_append_batch :
      List AppendReservation → List R.Context → BatchAction R (Unit {0})
  unfolding validate_each abort_each
  abort_append_batch rs contexts c =
      if length rs == length contexts
      then then_loop (abort_each 0 rs rs contexts) (validate_each 0 rs rs c)
      else (batch_error append_batch_size_mismatch (pending_append_batch rs c) none, c)
