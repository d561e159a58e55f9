-- ===== src/Cache/Commit/Settled.antt =====
-- `commit_append` and `abort_append` when the backend refuses: the pending append is put back.
use seqcache.Prelude.{◌≡◌, refl, ap, subst, true, false, none, some, Option-cases, inl, inr}
use seqcache.Error.{Result, ok, err, panic, Result-cases}
use seqcache.Exec.{◌>>=◌, ◌>>◌}
use seqcache.Arena.{Handle, resolve, write}
use seqcache.Arena.Written.{write-write_back, resolve-write}
use seqcache.Backend.{Runtime}
use seqcache.Backend.Contract.{StillOpen}
use seqcache.Cache.Records.{SequenceCache, SequenceRecord, PendingAppend}
use seqcache.Cache.Monad.{Outcome, Action}
use seqcache.Cache.Contained.{failed_in_backend, ledger, IsInternal, IsContained}
use seqcache.Cache.Sequences.{sequence_record, set_sequence}
use seqcache.Cache.Commit.{take_pending, put_pending, settled, call_with, refs_or_put_back}

module _ {R : Runtime} {X : Type 0} where
  -- The chain that both share: the pending append is taken, the pages are named, the backend is
  -- called, and its refusal puts the pending append back.
  abbrev pub end_append :
      Handle
      → (SequenceCache R → Outcome R X)
      → (X
          → R.AppendTransaction
          → R.Storage
          → Result R.BackendError (Unit {0}) × R.AppendTransaction × R.Storage)
      → Action R (Unit {0})
      → Action R (Unit {0})
  end_append id refs call finish = do
    pending ← take_pending id
    x ← refs_or_put_back id pending refs
    (answer, pending') ← call_with (call x) pending
    settled id pending' answer
    finish

  module _ (id : Handle)
      (call : X
        → R.AppendTransaction
        → R.Storage
        → Result R.BackendError (Unit {0}) × R.AppendTransaction × R.Storage)
      (finish : Action R (Unit {0})) (inside : IsInternal finish) where
    -- After the backend's answer, with the state as it was before the append was taken.
    answered :
        (c : SequenceCache R) (s : SequenceRecord R.AppendTransaction)
        (p : PendingAppend R.AppendTransaction)
        (y : Result R.BackendError (Unit {0}) × R.AppendTransaction × R.Storage)
        → resolve c.sequences id ≡ some s
        → s.pending ≡ some p
        → StillOpen p.transaction c.backend y
        → failed_in_backend
            ((settled id (record p { transaction = y.1 }) y.0 >> finish)
              (record (set_sequence id (record s { pending = none }) c) { backend = y.2 })).0
          ≡ true
        → ledger
            ((settled id (record p { transaction = y.1 }) y.0 >> finish)
              (record (set_sequence id (record s { pending = none }) c) { backend = y.2 })).1
          ≡ ledger c
    unfolding put_pending sequence_record
    answered c s p (ok _, t, b) live has open' h = absurd (
        cc (
          inside.inside (record (set_sequence id (record s { pending = none }) c) { backend = b }),
          h,
        ))
    answered c s p (err e, t, b) live has (same, stored) h =
        let taken = record s { pending = none } in
        let back : write (write c.sequences id taken) id
              (record s { pending = some (record p { transaction = t }) })
            ≡ c.sequences =
          rw same (
            subst
              (λ q. write (write c.sequences id taken) id (record s { pending = q }) ≡ c.sequences)
              has (write-write_back c.sequences id live taken)) in
        rw (resolve-write c.sequences id live taken, put_pending)
          (ap (λ q. ledger (record c { sequences = q })) back)
    answered c s p (panic, t, b) live has open' h = absurd (cc h)

    pub end_append-IsContained :
        (refs : SequenceCache R → Outcome R X)
        → ((c : SequenceCache R) → failed_in_backend (refs c) ≡ false)
        → ((x : X) (t : R.AppendTransaction) (b : R.Storage) → StillOpen t b (call x t b))
        → IsContained (end_append id refs call finish)
    unfolding take_pending put_pending sequence_record
    end_append-IsContained refs named open' = record {
      contained = λ c. elim (Option-cases (resolve c.sequences id)) [
        | inl stale ↦ rw (stale, take_pending) (λ h. refl)
        | inr (s, live) ↦ elim (Option-cases s.pending) [
          | inl closed ↦ rw (live, closed, take_pending) (λ h. refl)
          | inr (p, has) ↦
              let taken = record s { pending = none } in
              let c1 = set_sequence id taken c in
              elim (Result-cases (refs c1)) [
                | inl (x, fine) ↦
                    rw (live, has, fine, take_pending, refs_or_put_back)
                      (answered c s p (call x p.transaction c.backend) live has
                        (open' x p.transaction c.backend))
                | inr (inl (e, bad)) ↦
                    rw
                      (
                        live,
                        has,
                        bad,
                        take_pending,
                        refs_or_put_back,
                        resolve-write c.sequences id live taken,
                        put_pending,
                      )
                      (λ h. absurd (cc (h, rw bad at (named c1))))
                | inr (inr stuck) ↦
                    rw (live, has, stuck, take_pending, refs_or_put_back) (λ h. absurd (cc h))
              ]
        ]
      ];
    }
