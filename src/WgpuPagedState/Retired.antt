-- ===== src/WgpuPagedState/Retired.antt =====
-- examples/wgpu_paged_state.rs: what a retirement means. The check for duplicates makes every release
-- of the batch succeed.
use seqcache.Prelude.{
  ℕ, ◌<◌, length, ◌≡◌, ◌≢◌, refl, ◌∙◌, true, false, Bool, not, ◌&&◌, ◌||◌, List, [], ◌∷◌, map, set,
  All, ◌==◌, get_elem?-lt, if◌then◌else◌, arith,
}
use seqcache.Error.{ok, err, panic, >>=-eq-ok}
use seqcache.PageSlots.{
  IsPartition, IsPartition-give, live_at, live_at-set, live_at-get_elem?, AreApart, holds,
}
use seqcache.WgpuPagedState.Gpu.{Wgpu}
use seqcache.WgpuPagedState.Pool.{
  WgpuPage, WgpuPageBackend, WgpuResult, is_live, release, validate_page, validate_pages,
}
use seqcache.WgpuPagedState.Backend.{release_all}

abbrev pub slots_of : List WgpuPage → List ℕ
slots_of pages = map (λ p. p.slot) pages

still_live :
    (live : List Bool) (slot : ℕ) (pages : List WgpuPage)
    → slot < length live
    → All (λ p. live_at live p.slot ≡ true) pages
    → All (λ j. slot ≢ j) (slots_of pages)
    → All (λ p. live_at (set live slot false) p.slot ≡ true) pages
still_live live slot [] within h others = tt
still_live live slot (p ∷ ps) within (here, there) (other, others) = (
  ground (arith, live_at-set live slot p.slot false within),
  still_live live slot ps within there others,
)

module _ {G : Wgpu} where
  abbrev pub AreLive : WgpuPageBackend G → List WgpuPage → Type 0
  AreLive b pages = All (λ p. is_live b p ≡ true) pages

  -- The pages are not live after, and every other page is as before.
  pub record Retired (b : WgpuPageBackend G) (pages : List WgpuPage) (b' : WgpuPageBackend G)
      : Type 0 where
    pub partition : IsPartition b'.live b'.free_slots
    pub turned :
        (p : WgpuPage) → is_live b' p ≡ (is_live b p && not (holds p.slot (slots_of pages)))

  -- What a batch of releases means.
  abbrev pub Releases :
      WgpuPageBackend G → List WgpuPage → WgpuResult G (Unit {0}) × WgpuPageBackend G → Type 0
  Releases b pages (ok _, b') = Retired b pages b'
  Releases b pages (_, b') = ⊥

  validate_page-is_live :
      (b : WgpuPageBackend G) (p : WgpuPage) {u : Unit {0}}
      → validate_page b p ≡ ok u
      → is_live b p ≡ true
  unfolding validate_page
  validate_page-is_live b p h = ground arith

  pub validate_pages-AreLive :
      (b : WgpuPageBackend G) (pages : List WgpuPage)
      → validate_pages b pages ≡ ok tt
      → AreLive b pages
  unfolding validate_pages
  validate_pages-AreLive b [] h = tt
  validate_pages-AreLive b (p ∷ ps) h =
      let (u, here, there) = >>=-eq-ok (validate_page b p) (λ _. validate_pages b ps) h in
      (validate_page-is_live b p here, validate_pages-AreLive b ps there)

  -- The first release, then the rest.
  released_first :
      (b b' : WgpuPageBackend G) (p : WgpuPage) (ps : List WgpuPage)
      → ((q : WgpuPage) → is_live b' q ≡ (if q.slot == p.slot then false else is_live b q))
      → (x : WgpuResult G (Unit {0}) × WgpuPageBackend G) → Releases b' ps x
      → Releases b (p ∷ ps) x
  released_first b b' p ps first (ok _, end) h = record {
    partition = h.partition;
    turned = λ q.
        h.turned q
        ∙ rw (first q) (turned (q.slot == p.slot) (is_live b q) (holds q.slot (slots_of ps)));
  }
    where
      turned :
          (same live held : Bool)
          → ((if same then false else live) && not held) ≡ (live && not (same || held))
      turned true true true = refl
      turned true true false = refl
      turned true false held = refl
      turned false live held = refl
  released_first b b' p ps first (err e, end) h = h
  released_first b b' p ps first (panic, end) h = h

  pub release_all-Releases :
      (pages : List WgpuPage) (b : WgpuPageBackend G)
      → IsPartition b.live b.free_slots
      → AreLive b pages
      → AreApart (slots_of pages)
      → Releases b pages (release_all pages b)
  unfolding release_all release is_live
  release_all-Releases [] b part live apart = record {
    partition = part;
    turned = λ p. unlisted (is_live b p);
  }
    where
      unlisted : (l : Bool) → l ≡ (l && not false)
      unlisted true = refl
      unlisted false = refl
  release_all-Releases (p ∷ ps) b part (here, there) (others, apart) =
      let at = live_at-get_elem? b.live p.slot here in
      let within = get_elem?-lt b.live p.slot at in
      let b' = record b { live = set b.live p.slot false; free_slots = p.slot ∷ b.free_slots } in
      let rest =
        release_all-Releases ps b' (IsPartition-give b.live p.slot b.free_slots at part)
          (still_live b.live p.slot ps within there others) apart in
      rw here (
        released_first b b' p ps (λ q. live_at-set b.live p.slot q.slot false within)
          (release_all ps b') rest)
