-- ===== src/Cache/Retire/Returned.antt =====
-- The pages of a retirement that the backend refuses go back to their records.
use seqcache.Prelude.{
  ◌≡◌, refl, ap, sym, subst, ◌∙◌, none, some, List, [], ◌∷◌, Option-cases, inl, inr,
}
use seqcache.Error.{ok}
use seqcache.Exec.{continue-eq-ok}
use seqcache.Arena.{Handle, resolve}
use seqcache.Arena.Written.{
  write-write_back, resolve-write, write-write, resolve-write_apart, resolved_apart,
}
use seqcache.Backend.{Runtime}
use seqcache.Cache.Records.{SequenceCache, PageRecord}
use seqcache.Cache.Pages.{page_record, set_page}
use seqcache.Cache.Retire.{take_physical, take_all, give_back}

module _ {R : Runtime} where
  -- What a page that is taken was, and what is left of it.
  abbrev Taken : Handle → R.Page → SequenceCache R → SequenceCache R → Type 0
  Taken id physical c c' =
      (p : PageRecord R.Page) × (resolve c.pages id ≡ some p)
      × (p.physical ≡ some physical)
      × (c' ≡ set_page id (record p { physical = none }) c)

  take_physical-Taken :
      (id : Handle) (c c' : SequenceCache R) (physical : R.Page)
      → take_physical id c ≡ (ok physical, c')
      → Taken id physical c c'
  unfolding take_physical page_record
  take_physical-Taken id c c' physical h = elim (Option-cases (resolve c.pages id)) [
    | inl stale ↦ absurd (cc (rw stale at h))
    | inr (p, live) ↦ elim (Option-cases p.physical) [
      | inl gone ↦ absurd (cc (rw (live, gone) at h))
      | inr (q, has) ↦
          let h' = rw (live, has) at h in (p, live, cc (has, h'), sym (ap (λ x. x.1) h'))
    ]
  ]

  took :
      (id : Handle) (c : SequenceCache R) (p : PageRecord R.Page) (physical : R.Page)
      → resolve c.pages id ≡ some p
      → p.physical ≡ some physical
      → take_physical id c ≡ (ok physical, set_page id (record p { physical = none }) c)
  unfolding take_physical page_record
  took id c p physical live has = rw (live, has) refl

  take_all-cons :
      (id : Handle) (ids : List Handle) (c c' c1 : SequenceCache R) (q : R.Page) (qs : List R.Page)
      → take_physical id c ≡ (ok q, c')
      → take_all ids c' ≡ (ok qs, c1)
      → take_all (id ∷ ids) c ≡ (ok (q ∷ qs), c1)
  unfolding take_all
  take_all-cons id ids c c' c1 q qs one more = rw (one, more, take_all) refl

  uncons :
      (id : Handle) (ids : List Handle) (c c1 : SequenceCache R) (ps : List R.Page)
      → take_all (id ∷ ids) c ≡ (ok ps, c1)
      → (q : R.Page) × (qs : List R.Page) × (c' : SequenceCache R) × (ps ≡ q ∷ qs)
        × Taken id q c c'
        × (take_all ids c' ≡ (ok qs, c1))
  unfolding take_all
  uncons id ids c c1 ps h =
      let (q, c', one, rest) = continue-eq-ok (take_physical id c) _ h in
      let (qs, c2, more, last) = continue-eq-ok (take_all ids c') _ rest in
      let end : c2 ≡ c1 = ap (λ x. x.1) last in
      (
        q,
        qs,
        c',
        cc last,
        take_physical-Taken id c c' q one,
        subst (λ x. take_all ids c' ≡ (ok qs, x)) end more,
      )

  -- A record without its page is not among the others taken, so it may be changed before or after.
  take_all-set_page :
      (ids : List Handle) (c c1 : SequenceCache R) (ps : List R.Page) (id : Handle)
      (r v : PageRecord R.Page)
      → resolve c.pages id ≡ some r
      → r.physical ≡ none
      → take_all ids c ≡ (ok ps, c1)
      → (resolve c1.pages id ≡ some r)
        × (take_all ids (set_page id v c) ≡ (ok ps, set_page id v c1))
  unfolding take_all
  take_all-set_page [] c c1 ps id r v live gone h =
      let same : c ≡ c1 = ap (λ x. x.1) h in
      (ap (λ x. resolve x.pages id) (sym same) ∙ live, ap (λ x. (x.0, set_page id v x.1)) h)
  take_all-set_page (j ∷ js) c c1 ps id r v live gone h =
      let (q, qs, c', list, (p, live', has, step), more) = uncons j js c c1 ps h in
      let apart = resolved_apart c.pages id j live live' (λ same. cc (gone, has, same)) in
      let taken = record p { physical = none } in
      let still : resolve c'.pages id ≡ some r =
        ap (λ x. resolve x.pages id) step
        ∙ resolve-write_apart c.pages j id (λ e. apart (sym e)) taken
        ∙ live in
      let (kept, rest) = take_all-set_page js c' c1 qs id r v still gone more in
      let swap : set_page j taken (set_page id v c) ≡ set_page id v c' =
        ap (λ x. record c { pages = x }) (write-write c.pages id j apart v taken)
        ∙ ap (set_page id v) (sym step) in
      let one =
        took j (set_page id v c) p q (resolve-write_apart c.pages id j apart v ∙ live') has in
      let one' = subst (λ x. take_physical j (set_page id v c) ≡ (ok q, x)) swap one in
      let all =
        take_all-cons j js (set_page id v c) (set_page id v c') (set_page id v c1) q qs one' rest in
      (
        kept,
        subst (λ l. take_all (j ∷ js) (set_page id v c) ≡ (ok l, set_page id v c1)) (sym list) all,
      )

  give_back_step :
      (id : Handle) (ids : List Handle) (q : R.Page) (qs : List R.Page) (c : SequenceCache R)
      (r : PageRecord R.Page)
      → resolve c.pages id ≡ some r
      → give_back (id ∷ ids) (q ∷ qs) c
        ≡ give_back ids qs (set_page id (record r { physical = some q }) c)
  unfolding give_back page_record
  give_back_step id ids q qs c r live = rw (live, give_back) refl

  -- What `take_all` takes, `give_back` gives back to the records.
  pub give_back-take_all :
      (ids : List Handle) (c c1 : SequenceCache R) (ps : List R.Page)
      → take_all ids c ≡ (ok ps, c1)
      → give_back ids ps c1 ≡ (ok tt, c)
  unfolding take_all give_back
  give_back-take_all [] c c1 ps h = ap (λ x. (ok tt, x.1)) (sym h)
  give_back-take_all (id ∷ ids) c c1 ps h =
      let (q, qs, c', list, (p, live, has, step), more) = uncons id ids c c1 ps h in
      let taken = record p { physical = none } in
      let still : resolve c'.pages id ≡ some taken =
        ap (λ x. resolve x.pages id) step ∙ resolve-write c.pages id live taken in
      let (kept, rest) = take_all-set_page ids c' c1 qs id taken p still refl more in
      let back : set_page id p c' ≡ c =
        ap (set_page id p) step
        ∙ ap (λ x. record c { pages = x }) (write-write_back c.pages id live taken) in
      let again = subst (λ x. take_all ids x ≡ (ok qs, set_page id p c1)) back rest in
      let whole : record taken { physical = some q } ≡ p =
        ap (λ o. record p { physical = o }) (sym has) in
      subst (λ l. give_back (id ∷ ids) l c1 ≡ (ok tt, c)) (sym list)
        (give_back_step id ids q qs c1 taken kept
          ∙ ap (λ x. give_back ids qs (set_page id x c1)) whole
          ∙ give_back-take_all ids c (set_page id p c1) qs again)
