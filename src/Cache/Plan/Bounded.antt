-- ===== src/Cache/Plan/Bounded.antt =====
-- A plan of evictions: it brings the totals within the limits, takes the entries in the LRU order, and
-- spares the protected one.
use seqcache.Prelude.{
  ℕ, ◌≡◌, ap, ◌∙◌, subst, refl, true, Option, some, List, [], ◌∷◌, ◌++◌, arith, inl, inr,
  Bool-cases, get_key, if◌then◌else◌,
}
use mathlib.Core.List.{append_assoc}
use seqcache.Arena.{Handle}
use seqcache.Error.{CacheError, ok, expect, ◌>>=◌, >>=-eq-ok}
use seqcache.Backend.{Runtime}
use seqcache.Cache.Records.{SequenceCache, PrefixEntry}
use seqcache.Cache.Monad.{Outcome}
use seqcache.Cache.Plan.{
  plan_page, plan_pages, plan_snapshot, Limits, Plan, PlanRequest, fits, is_protected, limits_of,
  initial_plan, plan_entry, plan_loop, plan_evictions,
}

-- The identities of the LRU order that are not protected.
abbrev pub evictable : Option ℕ → List (ℕ × ℕ) → List ℕ
evictable protected [] = []
evictable protected ((_, id) ∷ order) =
    if is_protected protected id then evictable protected order else id ∷ evictable protected order

-- Some entries, and those behind them in the order.
abbrev pub IsPrefixOf : List ℕ → List ℕ → Type 0
IsPrefixOf chosen order = (rest : List ℕ) × (order ≡ chosen ++ rest)

module _ {R : Runtime} where
  -- The totals after the removal of some entries, in this order.
  unfoldable pub remove_all : SequenceCache R → List ℕ → Plan → Outcome R Plan
  remove_all c [] p = ok p
  remove_all c (id ∷ ids) p =
      expect (get_key id c.prefixes) >>= λ e. plan_entry c id e p >>= λ p'. remove_all c ids p'

  -- What a plan of the loop means: the next entries of the order that are not protected, whose
  -- removal is the first to bring the totals within the limits.
  abbrev pub Plans : SequenceCache R → Limits → List ℕ → Plan → List ℕ → Type 0
  Plans c l order p chosen =
      (ids : List ℕ) × (q : Plan) × (chosen ≡ p.chosen ++ ids)
      × IsPrefixOf ids order
      × (remove_all c ids p ≡ ok q)
      × (fits l q ≡ true)

  nothing_removed : (c : SequenceCache R) (p : Plan) → remove_all c [] p ≡ ok p
  unfolding remove_all
  nothing_removed c p = refl

  plan_page-chosen :
      (c : SequenceCache R) (id : Handle) (p : Plan) {p' : Plan}
      → plan_page c id p ≡ ok p'
      → p'.chosen ≡ p.chosen
  unfolding plan_page
  plan_page-chosen c id p h = ground arith

  plan_pages-chosen :
      (c : SequenceCache R) (ids : List Handle) (p : Plan) {p' : Plan}
      → plan_pages c ids p ≡ ok p'
      → p'.chosen ≡ p.chosen
  unfolding plan_pages
  plan_pages-chosen c [] p h = ground arith
  plan_pages-chosen c (id ∷ ids) p h =
      let (p1, one, rest) = >>=-eq-ok (plan_page c id p) (plan_pages c ids) h in
      plan_pages-chosen c ids p1 rest ∙ plan_page-chosen c id p one

  plan_entry-chosen :
      (c : SequenceCache R) (id : ℕ) (e : PrefixEntry R.radix.Key R.Snapshot) (p : Plan) {p' : Plan}
      → plan_entry c id e p ≡ ok p'
      → p'.chosen ≡ p.chosen ++ id ∷ []
  unfolding plan_entry plan_snapshot
  plan_entry-chosen c id e p h =
      let (p1, snapshot, h1) =
        >>=-eq-ok (plan_snapshot e p)
          (λ p1. plan_pages c e.pages p1 >>= λ p2. ok (record p2 { chosen = p2.chosen ++ id ∷ [] }))
          h in
      let (p2, paged, h2) =
        >>=-eq-ok (plan_pages c e.pages p1) (λ p2. ok (record p2 { chosen = p2.chosen ++ id ∷ [] }))
          h1 in
      let kept = plan_pages-chosen c e.pages p1 paged in ground arith

  fitted :
      (c : SequenceCache R) (l : Limits) (id : ℕ) (order : List ℕ)
      (e : PrefixEntry R.radix.Key R.Snapshot) (p p' : Plan)
      → expect {E = CacheError R.BackendError} (get_key id c.prefixes) ≡ ok e
      → plan_entry c id e p ≡ ok p'
      → fits l p' ≡ true
      → Plans c l (id ∷ order) p p'.chosen
  unfolding remove_all
  fitted c l id order e p p' found removed fit =
      (id ∷ [], p', plan_entry-chosen c id e p removed, (order, refl), rw (found, removed), fit)

  continued :
      (c : SequenceCache R) (l : Limits) (id : ℕ) (order chosen : List ℕ)
      (e : PrefixEntry R.radix.Key R.Snapshot) (p p' : Plan)
      → expect {E = CacheError R.BackendError} (get_key id c.prefixes) ≡ ok e
      → plan_entry c id e p ≡ ok p'
      → Plans c l order p' chosen
      → Plans c l (id ∷ order) p chosen
  unfolding remove_all
  continued c l id order chosen e p p' found removed (ids, q, same, (rest, prefix), after, fit) = (
    id ∷ ids,
    q,
    same
        ∙ ap (λ xs. xs ++ ids) (plan_entry-chosen c id e p removed)
        ∙ append_assoc p.chosen (id ∷ []) ids,
    (rest, ap (◌∷◌ id) prefix),
    rw (found, removed) after,
    fit,
  )

  plan_loop-Plans :
      (c : SequenceCache R) (l : Limits) (protected : Option ℕ) (order : List (ℕ × ℕ)) (p : Plan)
      {chosen : List ℕ}
      → plan_loop c l protected order p ≡ ok (some chosen)
      → Plans c l (evictable protected order) p chosen
  unfolding plan_loop
  plan_loop-Plans c l protected [] p h = cc
  plan_loop-Plans c l protected ((t, id) ∷ order) p {chosen} h =
      elim (Bool-cases (is_protected protected id)) [
        | inl spared ↦ rw spared (plan_loop-Plans c l protected order p (rw spared at h))
        | inr unspared ↦
            let (e, found, h1) =
              >>=-eq-ok (expect (get_key id c.prefixes))
                (λ e. plan_entry c id e p >>= λ p'.
                  if fits l p' then ok (some p'.chosen) else plan_loop c l protected order p')
                (rw unspared at h) in
            let (p', removed, h2) =
              >>=-eq-ok (plan_entry c id e p)
                (λ p'. if fits l p' then ok (some p'.chosen) else plan_loop c l protected order p')
                h1 in
            let rest = evictable protected order in
            elim (Bool-cases (fits l p')) [
              | inl fit ↦
                  let same : p'.chosen ≡ chosen = cc (rw fit at h2) in
                  rw unspared (
                    subst (Plans c l (id ∷ rest) p) same
                      (fitted c l id rest e p p' found removed fit))
              | inr over ↦ rw unspared (
                  continued c l id rest chosen e p p' found removed
                    (plan_loop-Plans c l protected order p' (rw over at h2)))
            ]
      ]

  initial_plan-chosen :
      (c : SequenceCache R) (q : PlanRequest) {p : Plan} → initial_plan c q ≡ ok p → p.chosen ≡ []
  unfolding initial_plan
  initial_plan-chosen c q h = ground arith

  -- Whenever `plan_evictions` finds a plan, it is a run of the LRU order from its least recently used
  -- entry, with the protected entry left out, and the totals that remain after these entries are
  -- removed, with what the request adds, are within the limits on bytes, pages, snapshots and
  -- entries.
  pub plan_evictions-fits :
      (c : SequenceCache R) (q : PlanRequest) (protected : Option ℕ) {chosen : List ℕ}
      → plan_evictions q protected c ≡ ok (some chosen)
      → (before : Plan) × (after : Plan) × (initial_plan c q ≡ ok before)
        × IsPrefixOf chosen (evictable protected c.lru)
        × (remove_all c chosen before ≡ ok after)
        × (fits (limits_of c q.byte_limit) after ≡ true)
  unfolding plan_evictions
  plan_evictions-fits c q protected {chosen} h =
      let l = limits_of c q.byte_limit in
      let (p, start, h1) =
        >>=-eq-ok (initial_plan c q)
          (λ p. if fits l p then ok (some []) else plan_loop c l protected c.lru p) h in
      elim (Bool-cases (fits l p)) [
        | inl fit ↦
            let empty : [] ≡ chosen = cc (rw fit at h1) in
            subst
              (λ ids.
                (before : Plan) × (after : Plan) × (initial_plan c q ≡ ok before)
                × IsPrefixOf ids (evictable protected c.lru)
                × (remove_all c ids before ≡ ok after)
                × (fits l after ≡ true))
              empty (p, p, start, (evictable protected c.lru, refl), nothing_removed c p, fit)
        | inr over ↦
            let (ids, after, same, prefix, removed, fit) =
              plan_loop-Plans c l protected c.lru p (rw over at h1) in
            let all : chosen ≡ ids = same ∙ ap (λ xs. xs ++ ids) (initial_plan-chosen c q start) in
            (p, after, start, rw all prefix, rw all removed, fit)
      ]
