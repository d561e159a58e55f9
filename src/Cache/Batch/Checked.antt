-- ===== src/Cache/Batch/Checked.antt =====
-- The checks that a batch makes of every item before it commits or aborts the first one.
use seqcache.Prelude.{
  ℕ, suc, ◌&&◌, ◌≤◌, ◌<◌, ◌≡◌, ◌⊎◌, inl, inr, refl, ◌∙◌, List, [], ◌∷◌, All, length, Bool-cases,
  arith, ◌==◌, ==_iff, Bool, true,
}
use seqcache.Error.{Result, ok, err, panic, Result-cases}
use seqcache.Backend.{Runtime}
use seqcache.Cache.Records.{AppendReservation, SequenceCache}
use seqcache.Cache.Append.{validate_reservation}
use seqcache.Cache.Batch.{
  then_loop, check_rows, check_each, commit_each, commit_append_batch, validate_each, abort_each,
  abort_append_batch,
}
use seqcache.Cache.Batch.Pending.{IsMatched}

-- The first loop either finds nothing, or its state is the last.
then_loop-stops :
    {E S : Type 0} (rest : S → Result E (Unit {0}) × S) (x : Result E (Unit {0}) × S)
    → (x.0 ≡ ok tt) ⊎ ((then_loop rest x).1 ≡ x.1)
then_loop-stops rest (ok _, c) = inl refl
then_loop-stops rest (err e, c) = inr refl
then_loop-stops rest (panic, c) = inr refl

both : (a b : Bool) → (a && b) ≡ true → (a ≡ true) × (b ≡ true)
both a b h = (ground arith, ground arith)

module _ {R : Runtime} where
  -- As many numbers of rows as reservations; each of these matches a pending append, and its rows are
  -- some of its own.
  abbrev pub AreCommittable : SequenceCache R → List AppendReservation → List ℕ → Type 0
  AreCommittable c (r ∷ rs) (n ∷ ns) =
      IsMatched c r × (0 < n) × (n ≤ r.rows) × AreCommittable c rs ns
  AreCommittable c [] [] = Unit {0}
  AreCommittable c _ _ = ⊥

  checked_rows :
      (r : AppendReservation) (n : ℕ) (c : SequenceCache R)
      → check_rows r n c ≡ ok tt
      → IsMatched c r × (0 < n) × (n ≤ r.rows)
  checked_rows r n c h = ground arith

  -- The checks change nothing.
  check_each-unchanged :
      (index : ℕ) (all rs : List AppendReservation) (ns : List ℕ) (c : SequenceCache R)
      → (check_each index all rs ns c).1 ≡ c
  unfolding check_each
  check_each-unchanged index all (r ∷ rs) (n ∷ ns) c = elim (Result-cases (check_rows r n c)) [
    | inl (_, fine) ↦ rw fine (check_each-unchanged (suc index) all rs ns c)
    | inr (inl (e, bad)) ↦ rw bad refl
    | inr (inr stuck) ↦ rw stuck refl
  ]
  check_each-unchanged index all [] ns c = refl
  check_each-unchanged index all (r ∷ rs) [] c = refl

  -- When they find nothing, every item may be committed.
  check_each-AreCommittable :
      (index : ℕ) (all rs : List AppendReservation) (ns : List ℕ) (c : SequenceCache R)
      → length rs ≡ length ns
      → (check_each index all rs ns c).0 ≡ ok tt
      → AreCommittable c rs ns
  unfolding check_each
  check_each-AreCommittable index all (r ∷ rs) (n ∷ ns) c same h =
      elim (Result-cases (check_rows r n c)) [
        | inl (_, fine) ↦
            let (matched, some_row, within) = checked_rows r n c fine in
            (
              matched,
              some_row,
              within,
              check_each-AreCommittable (suc index) all rs ns c (omega (arith, same))
                  (rw fine at h),
            )
        | inr (inl (e, bad)) ↦ absurd (cc (rw bad at h))
        | inr (inr stuck) ↦ absurd (cc (rw stuck at h))
      ]
  check_each-AreCommittable index all [] [] c same h = tt
  check_each-AreCommittable index all [] (n ∷ ns) c same h = absurd (omega arith)
  check_each-AreCommittable index all (r ∷ rs) [] c same h = absurd (omega arith)

  -- A batch commit either leaves the whole cache as it is, or there are as many numbers of rows and
  -- contexts as reservations, and every item of the batch was checked before the first commit: it
  -- matched a pending append, and its rows were some of the reserved ones.
  pub commit_append_batch-checked :
      (rs : List AppendReservation) (ns : List ℕ) (xs : List R.Context) (c : SequenceCache R)
      → ((commit_append_batch rs ns xs c).1 ≡ c)
        ⊎ (AreCommittable c rs ns × (length rs ≡ length xs))
  unfolding commit_append_batch
  commit_append_batch-checked rs ns xs c =
      elim (Bool-cases (length rs == length ns && length rs == length xs)) [
        | inr apart ↦ inl (rw apart refl)
        | inl sized ↦ elim (then_loop-stops (commit_each 0 rs rs ns xs) (check_each 0 rs rs ns c)) [
          | inl fine ↦
              let (rows, contexts) = both (length rs == length ns) (length rs == length xs) sized in
              inr (
                check_each-AreCommittable 0 rs rs ns c ((==_iff (length rs) (length ns)).0 rows)
                    fine,
                (==_iff (length rs) (length xs)).0 contexts,
              )
          | inr stop ↦ inl (rw sized (stop ∙ check_each-unchanged 0 rs rs ns c))
        ]
      ]

  validate_each-unchanged :
      (index : ℕ) (all rs : List AppendReservation) (c : SequenceCache R)
      → (validate_each index all rs c).1 ≡ c
  unfolding validate_each
  validate_each-unchanged index all (r ∷ rs) c = elim (Result-cases (validate_reservation r c)) [
    | inl (_, fine) ↦ rw fine (validate_each-unchanged (suc index) all rs c)
    | inr (inl (e, bad)) ↦ rw bad refl
    | inr (inr stuck) ↦ rw stuck refl
  ]
  validate_each-unchanged index all [] c = refl

  validate_each-IsMatched :
      (index : ℕ) (all rs : List AppendReservation) (c : SequenceCache R)
      → (validate_each index all rs c).0 ≡ ok tt
      → All (IsMatched c) rs
  unfolding validate_each
  validate_each-IsMatched index all (r ∷ rs) c h = elim (Result-cases (validate_reservation r c)) [
    | inl (_, fine) ↦ (rw fine refl, validate_each-IsMatched (suc index) all rs c (rw fine at h))
    | inr (inl (e, bad)) ↦ absurd (cc (rw bad at h))
    | inr (inr stuck) ↦ absurd (cc (rw stuck at h))
  ]
  validate_each-IsMatched index all [] c h = tt

  -- A batch abort either leaves the whole cache as it is, or every reservation of the batch matched a
  -- pending append before the first abort.
  pub abort_append_batch-checked :
      (rs : List AppendReservation) (xs : List R.Context) (c : SequenceCache R)
      → ((abort_append_batch rs xs c).1 ≡ c) ⊎ All (IsMatched c) rs
  unfolding abort_append_batch
  abort_append_batch-checked rs xs c = elim (Bool-cases (length rs == length xs)) [
    | inr apart ↦ inl (rw apart refl)
    | inl sized ↦ elim (then_loop-stops (abort_each 0 rs rs xs) (validate_each 0 rs rs c)) [
      | inl fine ↦ inr (validate_each-IsMatched 0 rs rs c fine)
      | inr stop ↦ inl (rw sized (stop ∙ validate_each-unchanged 0 rs rs c))
    ]
  ]
