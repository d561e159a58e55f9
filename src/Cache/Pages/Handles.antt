-- ===== src/Cache/Pages/Handles.antt =====
-- What the page handles of a cache resolve to after a page is inserted and after one is removed.
use seqcache.Prelude.{
  ◌+◌, ◌≡◌, some, none, Option, if◌then◌else◌, arith, Option-cases, inl, inr, ap, subst,
}
use seqcache.Word.{u32_max, checked_add_to}
use seqcache.Error.{ok}
use seqcache.Arena.{Arena, Handle, Slot, handle_eq, slot_of, resolve, vacate}
use seqcache.Arena.Sound.{IsSound}
use seqcache.Arena.Resolved.{insert-Inserts, vacate-resolve}
use seqcache.Backend.{Runtime}
use seqcache.Cache.Records.{PageRecord, SequenceCache}
use seqcache.Cache.Pages.{insert_page, remove_page, take_value}

-- After an arena operation, the handle `id` resolves to `o`, and every other one to what it did.
abbrev pub Moves : {A : Type 0} → Arena A → Handle → Option A → Arena A → Type 0
Moves a id o a' =
    IsSound a' × ((j : Handle) → resolve a' j ≡ (if handle_eq j id then o else resolve a j))

slot_of-generation :
    {A : Type 0} (a : Arena A) (id : Handle) {s : Slot A}
    → slot_of a id ≡ some s
    → s.generation ≡ id.generation
unfolding slot_of
slot_of-generation a id h = ground arith

module _ {R : Runtime} where
  -- When `insert_page` gives out a handle on a sound arena, the handle resolves to the page, every
  -- other handle to what it resolved to before, and the arena stays sound.
  pub insert_page-Moves :
      (p : PageRecord R.Page) (c c' : SequenceCache R) {id : Handle}
      → IsSound c.pages
      → insert_page p c ≡ (ok id, c')
      → Moves c.pages id (some p) c'.pages
  unfolding insert_page
  insert_page-Moves p c c' {id} sound h =
      insert-Inserts "page slot" c.pages p sound (ap (λ x. (x.0, x.1.pages)) h)

  taken :
      (id : Handle) (s : Slot (PageRecord R.Page)) (c c' : SequenceCache R)
      → take_value id s (checked_add_to u32_max s.generation 1) c ≡ (ok tt, c')
      → (v : PageRecord R.Page) × (s.value ≡ some v)
        × (vacate c.pages id (s.generation + 1) ≡ c'.pages)
  taken id s c c' h = elim (Option-cases (checked_add_to u32_max s.generation 1)) [
    | inl over ↦ absurd (cc (rw over at h))
    | inr (n, room) ↦ elim (Option-cases s.value) [
      | inl gone ↦ absurd (cc (rw (room, gone) at h))
      | inr (v, here) ↦
          let next : n ≡ s.generation + 1 = ground arith in
          (
            v,
            here,
            subst (λ m. vacate c.pages id m ≡ c'.pages) next
                (ap (λ x. x.1.pages) (rw (room, here) at h)),
          )
    ]
  ]

  removed :
      (id : Handle) (c c' : SequenceCache R)
      → remove_page id c ≡ (ok tt, c')
      → (v : PageRecord R.Page) × (resolve c.pages id ≡ some v)
        × (vacate c.pages id (id.generation + 1) ≡ c'.pages)
  unfolding remove_page resolve
  removed id c c' h = elim (Option-cases (slot_of c.pages id)) [
    | inl stale ↦ absurd (cc (rw stale at h))
    | inr (s, found) ↦
        let (v, here, after) = taken id s c c' (rw found at h) in
        (
          v,
          rw found here,
          subst (λ g. vacate c.pages id (g + 1) ≡ c'.pages) (slot_of-generation c.pages id found)
              after,
        )
  ]

  -- When `remove_page` succeeds on a sound arena, its handle resolves to nothing, every other handle
  -- to what it resolved to before, and the arena stays sound.
  pub remove_page-Moves :
      (id : Handle) (c c' : SequenceCache R)
      → IsSound c.pages
      → remove_page id c ≡ (ok tt, c')
      → Moves c.pages id none c'.pages
  remove_page-Moves id c c' sound h =
      let (v, live, after) = removed id c c' h in
      subst (Moves c.pages id none) after (vacate-resolve c.pages id sound live)
