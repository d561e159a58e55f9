-- ===== src/Tests/Geometry.antt =====
-- The sizes and the segments of appends, at concrete inputs.
use seqcache.Prelude.{ℕ, ◌*◌, ◌%◌, ◌≤◌, ◌<◌, ◌≡◌, ◌↔◌, refl, List, [], ◌∷◌, arith}
use seqcache.Word.{i64_max, usize_max}
use seqcache.Error.{ok}
use seqcache.Config.{div_ceil, validate_config, checkpoint_position}
use seqcache.Config.Sizes.{div_ceil_least, validate_config_iff, checkpoint_position_greatest}
use seqcache.Cache.Records.{AppendSegment}
use seqcache.Cache.Segments.{spans, place, prepared_pages}
use seqcache.Cache.Segments.Cover.{Covers, spans-Covers}
use seqcache.Cache.Segments.Place.{Placed, place-spans}
use seqcache.Cache.Segments.Prepared.{page_geometry, span_geometry, tail_if, prepared_pages-spans}
use seqcache.Tests.Runtime.{small_config, handle}

pages_of_nine : div_ceil {E = Unit {0}} 9 4 ≡ ok 3
unfolding div_ceil usize_max
pages_of_nine = refl

div_ceil_least_example : (9 ≤ 3 * 4) × ((k : ℕ) → 9 ≤ k * 4 → 3 ≤ k)
div_ceil_least_example = div_ceil_least 9 4 3 (omega arith) pages_of_nine

validate_config_iff_example :
    (validate_config {E = Unit {0}} small_config 16 ≡ ok tt)
    ↔ ((0 < 4) × (0 < 16) × (16 ≤ 1000) × (100 ≤ 1000) × (100 ≤ 1000) × (1000 ≤ i64_max))
validate_config_iff_example = validate_config_iff small_config 16

checkpoint_position_greatest_example :
    (checkpoint_position 4 9 % 4 ≡ 0)
    × (checkpoint_position 4 9 < 9)
    × ((k : ℕ) → k * 4 < 9 → k * 4 ≤ checkpoint_position 4 9)
checkpoint_position_greatest_example = checkpoint_position_greatest 4 9 (omega arith) (omega arith)

-- Six rows from position 3 on: one, four and one.
spans-Covers_example : Covers 4 0 3 6 (spans 4 6 3)
spans-Covers_example = spans-Covers 4 6 3 (omega arith)

place-spans_example :
    (xs : List AppendSegment) × (place {E = Unit {0}}
        (handle 0 ∷ [])
        (handle 1 ∷ handle 2 ∷ [])
        (spans 4 6 3)
      ≡ ok xs)
    × Placed (handle 0 ∷ handle 1 ∷ handle 2 ∷ []) (spans 4 6 3) xs
place-spans_example =
    place-spans (handle 0 ∷ []) (handle 1 ∷ handle 2 ∷ []) 4 6 3 (omega arith) pages_of_nine

pages_of_three : div_ceil {E = Unit {0}} 3 4 ≡ ok 1
unfolding div_ceil usize_max
pages_of_three = refl

prepared_pages-spans_example :
    page_geometry {P = ℕ} (prepared_pages 4 6 3 (tail_if 4 3 10) (11 ∷ 12 ∷ []))
    ≡ span_geometry (spans 4 6 3)
prepared_pages-spans_example =
    prepared_pages-spans 4 6 3 1 10 (11 ∷ 12 ∷ []) (omega arith) (omega arith) pages_of_three
      pages_of_nine
