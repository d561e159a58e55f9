-- ===== src/PageSlots.antt =====
-- examples/wgpu_paged_state.rs and examples/cuda_paged_state.rs: which slots of a page pool are live,
-- and which are free.
use seqcache.Prelude.{
  ℕ, ◌+◌, ◌<◌, ◌≡◌, ◌≢◌, refl, ap, ◌∙◌, Bool, true, false, Option, none, some, List, [], ◌∷◌,
  length, get_elem?, set, unwrap_or, All, any_of, count_by, sum_by-set, indicator, length-set,
  get_elem?-lt, get_elem?-set, get_elem?-set_self, Bool-cases, inl, inr, ◌==◌, if◌then◌else◌, arith,
}
use seqcache.CpuPagedKv.Dead.{AreDead, AreDead-set, live-apart}

-- The free slots are the dead ones, each listed once.
pub record IsPartition (live : List Bool) (free : List ℕ) : Type 0 where
  pub dead : AreDead live free
  pub tiled : length live ≡ length free + count_by (λ l. l) live

pub IsPartition-take :
    (live : List Bool) (slot : ℕ) (rest : List ℕ)
    → IsPartition live (slot ∷ rest)
    → IsPartition (set live slot true) rest
IsPartition-take live slot rest p =
    let (at, others, dead) = p.dead in
    record {
      dead = AreDead-set live slot true rest others dead;
      tiled = omega (
        arith,
        p.tiled,
        length-set live slot true,
        sum_by-set (λ l. indicator l) live slot true at,
      );
    }

pub IsPartition-give :
    (live : List Bool) (slot : ℕ) (free : List ℕ)
    → get_elem? live slot ≡ some true
    → IsPartition live free
    → IsPartition (set live slot false) (slot ∷ free)
IsPartition-give live slot free at p =
    let others = live-apart live slot free at p.dead in
    record {
      dead = (
        get_elem?-set_self live slot false (get_elem?-lt live slot at),
        others,
        AreDead-set live slot false free others p.dead,
      );
      tiled = omega (
        arith,
        p.tiled,
        length-set live slot false,
        sum_by-set (λ l. indicator l) live slot false at,
      );
    }

-- Whether a slot is live.
abbrev pub live_at : List Bool → ℕ → Bool
live_at live i = unwrap_or (get_elem? live i) false

pub live_at-set :
    (live : List Bool) (slot i : ℕ) (l : Bool)
    → slot < length live
    → live_at (set live slot l) i ≡ (if i == slot then l else live_at live i)
live_at-set live slot i l within =
    ap (λ o. unwrap_or o false) (get_elem?-set live slot i l within)
    ∙ elim (Bool-cases (i == slot)) [ inl e ↦ rw e refl | inr e ↦ rw e refl ]

pub live_at-get_elem? :
    (live : List Bool) (i : ℕ) → live_at live i ≡ true → get_elem? live i ≡ some true
live_at-get_elem? live i h = found (get_elem? live i) h
  where
    found : (o : Option Bool) → unwrap_or o false ≡ true → o ≡ some true
    found none h' = absurd (cc h')
    found (some l) h' = ap some h'

-- No slot is listed twice.
abbrev pub AreApart : List ℕ → Type 0
AreApart [] = Unit {0}
AreApart (i ∷ is) = All (λ j. i ≢ j) is × AreApart is

-- Whether a slot is listed.
abbrev pub holds : ℕ → List ℕ → Bool
holds i slots = any_of (λ j. i == j) slots

pub holds-ne : (i : ℕ) (slots : List ℕ) → holds i slots ≡ false → All (λ j. i ≢ j) slots
holds-ne i [] h = tt
holds-ne i (j ∷ js) h = (ground arith, holds-ne i js (ground arith))
