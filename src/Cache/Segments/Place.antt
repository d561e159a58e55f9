-- ===== src/Cache/Segments/Place.antt =====
-- The pages of the segments of an append: every segment finds its page.
use native.Mathlib.Nat.{sub-zero}
use seqcache.Prelude.{
  ℕ, zero, suc, ◌+◌, ◌-◌, ◌*◌, ◌≤◌, ◌<◌, ◌≡◌, refl, sym, ◌∙◌, some, List, [], ◌∷◌, ◌++◌, ltb,
  ltb→lt, arith, inl, inr, Bool-cases, length, get_elem?, length-append, ap, get_elem?-append_left,
  ltb→ge,
}
use seqcache.Error.{ok}
use seqcache.Arena.{Handle}
use seqcache.Config.{div_ceil}
use seqcache.Config.Sizes.{div_ceil_least}
use seqcache.Cache.Records.{AppendSegment}
use seqcache.Cache.Segments.{Span, spans, span_page, segment_at, place}
use seqcache.Cache.Segments.Cover.{Covers, spans-Covers}

-- Each segment is the span in the same place, on that page of the table.
abbrev pub Placed : List Handle → List Span → List AppendSegment → Type 0
Placed table [] [] = Unit {0}
Placed table (s ∷ ss) (x ∷ xs) =
    (get_elem? table s.logical_page ≡ some x.page)
    × (x.page_offset ≡ s.page_offset)
    × (x.input_offset ≡ s.input_offset)
    × (x.rows ≡ s.rows)
    × Placed table ss xs
Placed table _ _ = ⊥

get_elem?-total {ℓ} :
    {A : Type ℓ} (xs : List A) (i : ℕ) → i < length xs → (x : A) × (get_elem? xs i ≡ some x)
get_elem?-total [] i h = absurd (omega arith)
get_elem?-total (x ∷ xs) zero h = (x, refl)
get_elem?-total (x ∷ xs) (suc i) h = get_elem?-total xs i (omega arith)

get_elem?-append_right {ℓ} :
    {A : Type ℓ} (xs ys : List A) (i : ℕ)
    → length xs ≤ i
    → get_elem? (xs ++ ys) i ≡ get_elem? ys (i - length xs)
get_elem?-append_right [] ys i h = rw sub-zero
get_elem?-append_right (x ∷ xs) ys zero h = absurd (omega arith)
get_elem?-append_right (x ∷ xs) ys (suc i) h =
    get_elem?-append_right xs ys i (omega arith) ∙ ap (get_elem? ys) (omega arith)

span_page_lem :
    {E : Type 0} (old new : List Handle) (i : ℕ) {page : Handle}
    → get_elem? (old ++ new) i ≡ some page
    → span_page {E = E} old new i ≡ ok page
unfolding span_page
span_page_lem old new i {page} h = elim (Bool-cases (ltb i (length old))) [
  | inl here ↦
      let e : get_elem? old i ≡ some page =
        sym (get_elem?-append_left old new i (ltb→lt i _ here)) ∙ h in
      rw (here, e)
  | inr there ↦
      let e : get_elem? new (i - length old) ≡ some page =
        sym (get_elem?-append_right old new i (ltb→ge i _ there)) ∙ h in
      rw (there, e)
]

smaller_quotient : (q k n o : ℕ) → q * n + o < k * n → q < k
smaller_quotient q k n o h = grind arith

-- A cover does not end before it begins.
Covers-le :
    (n input position rows : ℕ) (ss : List Span) → Covers n input position rows ss → input ≤ rows
Covers-le n input position rows [] c = omega arith
Covers-le n input position rows (s ∷ ss) (_, _, _, _, rest) =
    omega (arith, Covers-le n (input + s.rows) (position + s.rows) rows ss rest)

place_covering :
    {E : Type 0} (old new : List Handle) (n input position rows : ℕ) (ss : List Span)
    → Covers n input position rows ss
    → position + rows ≤ length (old ++ new) * n + input
    → (xs : List AppendSegment) × (place {E = E} old new ss ≡ ok xs) × Placed (old ++ new) ss xs
unfolding place
place_covering {E} old new n input position rows [] cover fits = ([], refl, tt)
place_covering {E} old new n input position rows (s ∷ ss) (start, at, some_row, within, rest) fits =
    let more = Covers-le n (input + s.rows) (position + s.rows) rows ss rest in
    let inside : s.logical_page < length (old ++ new) =
      smaller_quotient s.logical_page (length (old ++ new)) n s.page_offset (omega arith) in
    let (page, found) = get_elem?-total (old ++ new) s.logical_page inside in
    let (xs, placed, all) =
      place_covering {E = E} old new n (input + s.rows) (position + s.rows) rows ss rest
        (omega arith) in
    (
      segment_at page s ∷ xs,
      rw (span_page_lem {E = E} old new s.logical_page found, placed),
      (found, refl, refl, refl, all),
    )

-- The table of a sequence that holds the committed positions and is extended to hold the rows of an
-- append has a page for each of its segments: the reservation never fails for a missing page, and
-- each segment is on the page of its logical position.
pub place-spans :
    {E : Type 0} (old new : List Handle) (page_tokens rows position : ℕ)
    → 0 < page_tokens
    → div_ceil {E = E} (position + rows) page_tokens ≡ ok (length old + length new)
    → (xs : List AppendSegment) × (place {E = E} old new (spans page_tokens rows position) ≡ ok xs)
      × Placed (old ++ new) (spans page_tokens rows position) xs
place-spans old new n rows position pos total =
    let (enough, _) = div_ceil_least (position + rows) n (length old + length new) pos total in
    place_covering old new n 0 position rows (spans n rows position)
      (spans-Covers n rows position pos) (rw (length-append old new) (omega arith))
