-- ===== src/Cache/Batch/Pending.antt =====
-- What a failed batch still owns: the reservations that match a pending append.
use seqcache.Prelude.{
  true, false, ◌≡◌, refl, List, [], ◌∷◌, All, any_of, filter_by, Bool-cases, inl, inr, arith,
}
use seqcache.Error.{is_ok}
use seqcache.Arena.{Handle, handle_eq}
use seqcache.Backend.{Runtime}
use seqcache.Cache.Records.{AppendReservation, SequenceCache}
use seqcache.Cache.Append.{validate_reservation}
use seqcache.Cache.Batch.{still_pending, pending_append_batch}

-- The sequence is none of those.
abbrev pub IsNew : List Handle → AppendReservation → Type 0
IsNew seen r = any_of (handle_eq r.sequence) seen ≡ false

-- No two reservations are of one sequence, and none is of those seen before.
abbrev pub AreOfOwnSequences : List Handle → List AppendReservation → Type 0
AreOfOwnSequences seen [] = Unit {0}
AreOfOwnSequences seen (r ∷ rs) = IsNew seen r × AreOfOwnSequences (r.sequence ∷ seen) rs

own_weakened :
    (seen seen' : List Handle) (rs : List AppendReservation)
    → ((r : AppendReservation) → IsNew seen' r → IsNew seen r)
    → AreOfOwnSequences seen' rs
    → AreOfOwnSequences seen rs
own_weakened seen seen' [] fewer h = tt
own_weakened seen seen' (r ∷ rs) fewer (new, own) = (
  fewer r new,
  own_weakened (r.sequence ∷ seen) (r.sequence ∷ seen') rs
      (λ s among. let rest = fewer s in ground (arith, rest)) own,
)

own_fewer :
    (a : Handle) (seen : List Handle) (rs : List AppendReservation)
    → AreOfOwnSequences (a ∷ seen) rs
    → AreOfOwnSequences seen rs
own_fewer a seen rs h = own_weakened seen (a ∷ seen) rs (λ s among. ground arith) h

module _ {R : Runtime} where
  abbrev pub IsMatched : SequenceCache R → AppendReservation → Type 0
  IsMatched c r = is_ok (validate_reservation r c) ≡ true

  still_pending_sound :
      (seen : List Handle) (rs : List AppendReservation) (c : SequenceCache R)
      → All (IsMatched c) (still_pending seen rs c)
        × AreOfOwnSequences seen (still_pending seen rs c)
  unfolding still_pending
  still_pending_sound seen [] c = (tt, tt)
  still_pending_sound seen (r ∷ rs) c =
      let (matched, own) = still_pending_sound (r.sequence ∷ seen) rs c in
      elim (Bool-cases (any_of (handle_eq r.sequence) seen)) [
        | inl old ↦
            rw old (matched, own_fewer r.sequence seen (still_pending (r.sequence ∷ seen) rs c) own)
        | inr new ↦ elim (Bool-cases (is_ok (validate_reservation r c))) [
          | inl valid ↦ rw (new, valid) ((valid, matched), (new, own))
          | inr stale ↦
              rw (new, stale)
                (matched, own_fewer r.sequence seen (still_pending (r.sequence ∷ seen) rs c) own)
        ]
      ]

  -- The reservations that a failed batch hands back all match a pending append of the cache, and no two
  -- of them are of one sequence.
  pub pending_append_batch_sound :
      (rs : List AppendReservation) (c : SequenceCache R)
      → All (IsMatched c) (pending_append_batch rs c)
        × AreOfOwnSequences [] (pending_append_batch rs c)
  pending_append_batch_sound rs c = still_pending_sound [] rs c

  still_pending-filter_by :
      (seen : List Handle) (rs : List AppendReservation) (c : SequenceCache R)
      → AreOfOwnSequences seen rs
      → still_pending seen rs c ≡ filter_by (λ r. is_ok (validate_reservation r c)) rs
  unfolding still_pending
  still_pending-filter_by seen [] c own = refl
  still_pending-filter_by seen (r ∷ rs) c (new, own) =
      rw (new, still_pending-filter_by (r.sequence ∷ seen) rs c own) refl

  -- If the reservations of a batch are of distinct sequences, those that it hands back are exactly the
  -- ones that match a pending append, in their order.
  pub pending_append_batch-exact :
      (rs : List AppendReservation) (c : SequenceCache R)
      → AreOfOwnSequences [] rs
      → pending_append_batch rs c ≡ filter_by (λ r. is_ok (validate_reservation r c)) rs
  pending_append_batch-exact rs c own = still_pending-filter_by [] rs c own
