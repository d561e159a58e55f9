-- ===== src/Cache/Partial/Committed.antt =====
-- The segments of a partial commit are the first rows of the reservation.
use seqcache.Prelude.{
  ℕ, ◌+◌, ◌-◌, ◌≤◌, ◌<◌, ◌≡◌, refl, List, [], ◌∷◌, ltb, ltb→lt, ltb→ge, arith, inl, inr, Bool-cases,
}
use seqcache.Word.{min_of}
use seqcache.Cache.Records.{AppendSegment}
use seqcache.Cache.Partial.{committed_segments}

-- The segments take the rows from `input` up to `rows` in order, each at least one.
abbrev pub InOrder : ℕ → ℕ → List AppendSegment → Type 0
InOrder input rows [] = input ≡ rows
InOrder input rows (s ∷ ss) =
    (s.input_offset ≡ input) × (0 < s.rows) × InOrder (input + s.rows) rows ss

-- Each of the first list's segments is at the place of the second's, with as many rows or fewer.
abbrev pub CutOf : List AppendSegment → List AppendSegment → Type 0
CutOf [] ys = Unit {0}
CutOf (x ∷ xs) [] = ⊥
CutOf (x ∷ xs) (y ∷ ys) =
    (x.page ≡ y.page)
    × (x.page_offset ≡ y.page_offset)
    × (x.input_offset ≡ y.input_offset)
    × (x.rows ≤ y.rows)
    × CutOf xs ys

-- Segments that begin at or after the committed rows are dropped.
committed_past :
    (input rows k : ℕ) (ss : List AppendSegment)
    → InOrder input rows ss
    → k ≤ input
    → committed_segments k ss ≡ []
unfolding committed_segments
committed_past input rows k [] o past = refl
committed_past input rows k (s ∷ ss) (at, _, _) past = ground arith

min_of_left : (a b : ℕ) → a ≤ b → min_of a b ≡ a
min_of_left a b h = ground arith

min_of_right : (a b : ℕ) → b ≤ a → min_of a b ≡ b
min_of_right a b h = ground arith

committed_from :
    (input rows k : ℕ) (ss : List AppendSegment)
    → InOrder input rows ss
    → input ≤ k
    → k ≤ rows
    → InOrder input k (committed_segments k ss) × CutOf (committed_segments k ss) ss
unfolding committed_segments
committed_from input rows k [] o le within = (omega arith, tt)
committed_from input rows k (s ∷ ss) (at, some_row, rest) le within =
    elim (Bool-cases (ltb s.input_offset k)) [
      | inl more ↦
          let lt = ltb→lt s.input_offset k more in
          elim (Bool-cases (ltb (input + s.rows) k)) [
            | inl whole ↦
                let (order, cut) =
                  committed_from (input + s.rows) rows k ss rest
                    (omega (arith, ltb→lt (input + s.rows) k whole)) within in
                rw
                  (
                    more,
                    min_of_left s.rows (k - s.input_offset)
                        (omega (arith, ltb→lt (input + s.rows) k whole)),
                  )
                  ((at, some_row, order), (refl, refl, refl, omega arith, cut))
            | inr last ↦
                let past = ltb→ge (input + s.rows) k last in
                rw
                  (
                    more,
                    committed_past (input + s.rows) rows k ss rest past,
                    min_of_right s.rows (k - s.input_offset) (omega arith),
                  )
                  ((at, omega arith, omega arith), (refl, refl, refl, omega arith, tt))
          ]
      | inr done ↦ rw done (omega (arith, ltb→ge s.input_offset k done), tt)
    ]

-- If the segments of a reservation take its rows in order, the segments of a commit of the first
-- `committed` of them take exactly these in order, on the same pages and at the same offsets.
pub committed_segments-InOrder :
    (rows committed : ℕ) (segments : List AppendSegment)
    → InOrder 0 rows segments
    → committed ≤ rows
    → InOrder 0 committed (committed_segments committed segments)
      × CutOf (committed_segments committed segments) segments
committed_segments-InOrder rows k ss o within = committed_from 0 rows k ss o (omega arith) within
