-- ===== src/Cache/Sequences/Removal.antt =====
-- The running totals of the sequences, under a removal of a sequence.
use seqcache.Prelude.{
  ℕ, suc, ◌+◌, ◌≡◌, refl, ap, subst, none, some, length, length-set, Option-cases, inl, inr, arith,
}
use seqcache.Word.{u32_max, checked_add_to, checked_sub}
use seqcache.Error.{ok}
use seqcache.Arena.{Handle, Arena, slot_of, resolve, vacate}
use seqcache.Arena.Weights.{weigh-vacate}
use seqcache.Backend.{Runtime}
use seqcache.Cache.Records.{SequenceRecord, SequenceCache}
use seqcache.Cache.Accounted.{IsAccounted}
use seqcache.Cache.Sequences.{set_sequence_totals, take_sequence, remove_sequence}
use seqcache.Cache.Sequences.Accounts.{live_values-weigh, count_by-weigh}

checked_sub-eq_some : (a b : ℕ) {n : ℕ} → checked_sub a b ≡ some n → n + b ≡ a
checked_sub-eq_some a b h = ground arith

vacate-sizes :
    {A : Type 0} (a : Arena A) (id : Handle) (next : ℕ)
    → (length (vacate a id next).slots ≡ length a.slots)
      × (length (vacate a id next).free ≡ suc (length a.free))
unfolding vacate
vacate-sizes a id next =
    (length-set a.slots id.slot (record { generation = next; value = none }), refl)

module _ {R : Runtime} where
  vacate-IsAccounted :
      (v : SequenceRecord R.AppendTransaction) (c : SequenceCache R) (id : Handle)
      (next reserved private tables : ℕ)
      → IsAccounted c
      → resolve c.sequences id ≡ some v
      → checked_sub c.stats.reserved_pages v.reserved_pages ≡ some reserved
      → checked_sub c.stats.active_private_state_bytes v.private_state_bytes ≡ some private
      → checked_sub c.stats.page_table_bytes v.page_table_bytes ≡ some tables
      → IsAccounted (
          set_sequence_totals reserved private tables
            (record c { sequences = vacate c.sequences id next }))
  vacate-IsAccounted v c id next reserved private tables a h room room1 room2 =
      let old = c.sequences in
      let new = vacate c.sequences id next in
      let live = weigh-vacate (λ w. 1) old id next h in
      record {
        pages_tiled = a.pages_tiled;
        sequences_tiled = omega (
          arith,
          a.sequences_tiled,
          count_by-weigh old.slots,
          count_by-weigh new.slots,
          live,
          vacate-sizes old id next,
        );
        reserved = omega (
          arith,
          a.reserved,
          live_values-weigh (λ w. w.reserved_pages) old.slots,
          live_values-weigh (λ w. w.reserved_pages) new.slots,
          weigh-vacate (λ w. w.reserved_pages) old id next h,
          checked_sub-eq_some c.stats.reserved_pages v.reserved_pages room,
        );
        private = omega (
          arith,
          a.private,
          live_values-weigh (λ w. w.private_state_bytes) old.slots,
          live_values-weigh (λ w. w.private_state_bytes) new.slots,
          weigh-vacate (λ w. w.private_state_bytes) old id next h,
          checked_sub-eq_some c.stats.active_private_state_bytes v.private_state_bytes room1,
        );
        tables = omega (
          arith,
          a.tables,
          live_values-weigh (λ w. w.page_table_bytes) old.slots,
          live_values-weigh (λ w. w.page_table_bytes) new.slots,
          weigh-vacate (λ w. w.page_table_bytes) old id next h,
          checked_sub-eq_some c.stats.page_table_bytes v.page_table_bytes room2,
        );
        snapshots = a.snapshots;
        reclaimable = a.reclaimable;
      }

  taken :
      (id : Handle) (c c' : SequenceCache R) (v : SequenceRecord R.AppendTransaction) (next : ℕ)
      → take_sequence id next v c ≡ (ok tt, c')
      → (reserved private tables : ℕ) × (checked_sub c.stats.reserved_pages v.reserved_pages
          ≡ some reserved)
        × (checked_sub c.stats.active_private_state_bytes v.private_state_bytes ≡ some private)
        × (checked_sub c.stats.page_table_bytes v.page_table_bytes ≡ some tables)
        × (set_sequence_totals reserved private tables
              (record c { sequences = vacate c.sequences id next })
            ≡ c')
  unfolding take_sequence
  taken id c c' v next h =
      elim (Option-cases (checked_sub c.stats.reserved_pages v.reserved_pages)) [
        | inl over ↦ absurd (cc (rw over at h))
        | inr (reserved, room) ↦
            elim (Option-cases
              (checked_sub c.stats.active_private_state_bytes v.private_state_bytes)) [
                | inl over ↦ absurd (cc (rw (room, over) at h))
                | inr (private, room1) ↦
                    elim (Option-cases (checked_sub c.stats.page_table_bytes v.page_table_bytes)) [
                      | inl over ↦ absurd (cc (rw (room, room1, over) at h))
                      | inr (tables, room2) ↦
                          let end : set_sequence_totals reserved private tables
                                (record c { sequences = vacate c.sequences id next })
                              ≡ c' =
                            ap (λ x. x.1) (rw (room, room1, room2) at h) in
                          (reserved, private, tables, room, room1, room2, end)
                    ]
              ]
      ]

  removed :
      (id : Handle) (c c' : SequenceCache R)
      → remove_sequence id c ≡ (ok tt, c')
      → (v : SequenceRecord R.AppendTransaction) × (next reserved private tables : ℕ) × (resolve
            c.sequences id
          ≡ some v)
        × (checked_sub c.stats.reserved_pages v.reserved_pages ≡ some reserved)
        × (checked_sub c.stats.active_private_state_bytes v.private_state_bytes ≡ some private)
        × (checked_sub c.stats.page_table_bytes v.page_table_bytes ≡ some tables)
        × (set_sequence_totals reserved private tables
              (record c { sequences = vacate c.sequences id next })
            ≡ c')
  unfolding remove_sequence resolve
  removed id c c' h = elim (Option-cases (slot_of c.sequences id)) [
    | inl stale ↦ absurd (cc (rw stale at h))
    | inr (s, found) ↦ elim (Option-cases (checked_add_to u32_max s.generation 1)) [
      | inl over ↦ absurd (cc (rw (found, over) at h))
      | inr (next, room) ↦ elim (Option-cases s.value) [
        | inl gone ↦ absurd (cc (rw (found, room, gone) at h))
        | inr (v, here) ↦
            let (reserved, private, tables, room1, room2, room3, end) =
              taken id c c' v next (rw (found, room, here) at h) in
            (v, next, reserved, private, tables, rw found here, room1, room2, room3, end)
      ]
    ]
  ]

  -- On a cache whose running totals agree with its records, a removal of a sequence that succeeds
  -- leaves the running totals in agreement with the records.
  pub remove_sequence-IsAccounted :
      (id : Handle) (c c' : SequenceCache R)
      → IsAccounted c
      → remove_sequence id c ≡ (ok tt, c')
      → IsAccounted c'
  remove_sequence-IsAccounted id c c' a h =
      let (v, next, reserved, private, tables, live, room, room1, room2, end) = removed id c c' h in
      subst IsAccounted end
        (vacate-IsAccounted v c id next reserved private tables a live room room1 room2)
