-- ===== src/WgpuPagedState/Distinct.antt =====
-- examples/wgpu_paged_state.rs: the pages that `validate_distinct_pages` lets through, and which
-- methods of the backend never panic.
use seqcache.Prelude.{
  ◌≡◌, ◌≢◌, refl, true, false, Bool, ◌==◌, Option, none, some, List, [], ◌∷◌, ◌++◌, All, any_of,
  if◌then◌else◌, arith,
}
use seqcache.Error.{Result, ok, err, panic, >>=-eq-ok, ◌>>◌}
use seqcache.PageSlots.{AreApart}
use seqcache.WgpuPagedState.Gpu.{Wgpu}
use seqcache.WgpuPagedState.Pool.{
  WgpuPage, WgpuPageBackend, is_live, wait_for_gpu, wait_for, polled, validate_page, validate_pages,
  check_distinct, validate_distinct_pages,
}
use seqcache.WgpuPagedState.Retired.{slots_of, AreLive, validate_pages-AreLive}

abbrev Fresh : WgpuPage → List WgpuPage → Type 0
Fresh q before = All (λ r. r.slot ≢ q.slot) before

any_of-Fresh :
    (q : WgpuPage) (before : List WgpuPage)
    → any_of (λ r. r.slot == q.slot) before ≡ false
    → Fresh q before
any_of-Fresh q [] h = tt
any_of-Fresh q (r ∷ rs) h = (ground arith, any_of-Fresh q rs (ground arith))

Fresh-last :
    (q : WgpuPage) (before : List WgpuPage) (p : WgpuPage)
    → Fresh q (before ++ p ∷ [])
    → Fresh q before × (p.slot ≢ q.slot)
Fresh-last q [] p (ne, t) = (tt, ne)
Fresh-last q (r ∷ rs) p (ne, t) = let (rest, last) = Fresh-last q rs p t in ((ne, rest), last)

split_last :
    (before : List WgpuPage) (p : WgpuPage) (ps : List WgpuPage)
    → All (λ q. Fresh q (before ++ p ∷ [])) ps
    → All (λ q. Fresh q before) ps × All (λ j. p.slot ≢ j) (slots_of ps)
split_last before p [] h = (tt, tt)
split_last before p (q ∷ qs) (here, there) =
    let (fresh, ne) = Fresh-last q before p here in
    let (rest, others) = split_last before p qs there in ((fresh, rest), (ne, others))

guard-eq-ok :
    {E A : Type 0} (b : Bool) (e : E) (r : Result E A) {a : A}
    → (if b then err e else r) ≡ ok a
    → (b ≡ false) × (r ≡ ok a)
guard-eq-ok true e r h = absurd (cc h)
guard-eq-ok false e r h = (refl, h)

check_distinct-AreApart :
    (M : Type 0) (before pages : List WgpuPage)
    → check_distinct {M = M} before pages ≡ ok tt
    → All (λ q. Fresh q before) pages × AreApart (slots_of pages)
unfolding check_distinct
check_distinct-AreApart M before [] h = (tt, tt)
check_distinct-AreApart M before (p ∷ ps) h =
    let (fresh, rest) = guard-eq-ok (any_of (λ q. q.slot == p.slot) before) _ _ h in
    let (later, apart) = check_distinct-AreApart M (before ++ p ∷ []) ps rest in
    let (early, others) = split_last before p ps later in
    ((any_of-Fresh p before fresh, early), (others, apart))

-- A result that is no panic.
abbrev pub Settled : {E A : Type 0} → Result E A → Type 0
Settled panic = ⊥
Settled _ = Unit {0}

then-Settled :
    {E A B : Type 0} (r : Result E A) (k : Result E B) → Settled r → Settled k → Settled (r >> k)
then-Settled (ok a) k h h' = h'
then-Settled (err e) k h h' = tt
then-Settled panic k h h' = h

if-Settled :
    {E A : Type 0} (b : Bool) (r r' : Result E A)
    → Settled r
    → Settled r'
    → Settled (if b then r else r')
if-Settled true r r' h h' = h
if-Settled false r r' h h' = h'

check_distinct-Settled :
    (M : Type 0) (before pages : List WgpuPage) → Settled (check_distinct {M = M} before pages)
unfolding check_distinct
check_distinct-Settled M before [] = tt
check_distinct-Settled M before (p ∷ ps) =
    if-Settled (any_of (λ q. q.slot == p.slot) before) _ _ tt
      (check_distinct-Settled M (before ++ p ∷ []) ps)

module _ {G : Wgpu} where
  validate_pages-Settled :
      (b : WgpuPageBackend G) (pages : List WgpuPage) → Settled (validate_pages b pages)
  unfolding validate_pages validate_page
  validate_pages-Settled b [] = tt
  validate_pages-Settled b (p ∷ ps) =
      then-Settled (validate_page b p) (validate_pages b ps) (if-Settled (is_live b p) _ _ tt tt)
        (validate_pages-Settled b ps)

  pub validate_distinct_pages-Settled :
      (b : WgpuPageBackend G) (pages : List WgpuPage) → Settled (validate_distinct_pages b pages)
  unfolding validate_distinct_pages
  validate_distinct_pages-Settled b pages =
      then-Settled (validate_pages b pages) _ (validate_pages-Settled b pages)
        (check_distinct-Settled G.Message [] pages)

  -- The pages that pass are live and distinct.
  pub validate_distinct_pages_sound :
      (b : WgpuPageBackend G) (pages : List WgpuPage)
      → validate_distinct_pages b pages ≡ ok tt
      → AreLive b pages × AreApart (slots_of pages)
  unfolding validate_distinct_pages
  validate_distinct_pages_sound b pages h =
      let (u, live, distinct) =
        >>=-eq-ok (validate_pages b pages) (λ _. check_distinct [] pages) h in
      let (fresh, apart) = check_distinct-AreApart G.Message [] pages distinct in
      (validate_pages-AreLive b pages live, apart)

  wait_for-Settled :
      (pending : Option G.SubmissionIndex) (b : WgpuPageBackend G) → Settled (wait_for pending b).0
  unfolding wait_for
  wait_for-Settled none b = tt
  wait_for-Settled (some i) b = waited (G.poll i b.device)
    where
      waited : (x : Option G.Message × G.Device) → Settled (polled x b).0
      waited (none, d) = tt
      waited (some m, d) = tt

  pub wait_for_gpu-Settled : (b : WgpuPageBackend G) → Settled (wait_for_gpu b).0
  unfolding wait_for_gpu
  wait_for_gpu-Settled b = wait_for-Settled b.last_submission b
