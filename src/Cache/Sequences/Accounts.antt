-- ===== src/Cache/Sequences/Accounts.antt =====
-- The running totals of the sequences, under an insertion of a sequence.
use seqcache.Prelude.{
  ℕ, ◌+◌, ◌≡◌, refl, ap, subst, ◌∙◌, sym, some, List, [], ◌∷◌, sum_by, count_by, Option-cases, inl,
  inr, arith,
}
use seqcache.Word.{checked_add}
use seqcache.Error.{ok}
use seqcache.Arena.{Handle, Slot, Arena, insert}
use seqcache.Arena.Sound.{IsSound}
use seqcache.Arena.Weights.{weight_in, weigh-insert}
use seqcache.Exec.{modify, pure, continue-eq-ok, modify-eq-ok, ◌>>◌}
use seqcache.Backend.{Runtime}
use seqcache.Cache.Records.{SequenceRecord, SequenceCache}
use seqcache.Cache.Totals.{is_live, live_values}
use seqcache.Cache.Accounted.{IsAccounted}
use seqcache.Cache.Sequences.{put_in_slot, set_sequence_totals, insert_sequence}

checked_add-eq_some : (a b : ℕ) {n : ℕ} → checked_add a b ≡ some n → n ≡ a + b
checked_add-eq_some a b h = ground arith

module _ {A : Type 0} where
  pub live_values-weigh :
      (f : A → ℕ) (slots : List (Slot A))
      → sum_by f (live_values slots) ≡ sum_by (weight_in f) slots
  live_values-weigh f [] = refl
  live_values-weigh f (s ∷ ss) = elim (Option-cases s.value) [
    | inl gone ↦ rw gone (omega (arith, live_values-weigh f ss))
    | inr (v, here) ↦ rw here (omega (arith, live_values-weigh f ss))
  ]

  pub count_by-weigh :
      (slots : List (Slot A)) → count_by is_live slots ≡ sum_by (weight_in (λ v. 1)) slots
  count_by-weigh [] = refl
  count_by-weigh (s ∷ ss) = elim (Option-cases s.value) [
    | inl gone ↦ rw gone (omega (arith, count_by-weigh ss))
    | inr (v, here) ↦ rw here (omega (arith, count_by-weigh ss))
  ]

module _ {R : Runtime} where
  put :
      (v : SequenceRecord R.AppendTransaction) (c t : SequenceCache R) {id : Handle}
      → put_in_slot v c ≡ (ok id, t)
      → (insert {E = R.BackendError} "sequence slot" c.sequences v ≡ (ok id, t.sequences))
        × (record c { sequences = t.sequences } ≡ t)
  unfolding put_in_slot
  put v c t h = (
    ap (λ x. (x.0, x.1.sequences)) h,
    sym (ap (λ x. record c { sequences = x.1.sequences }) h) ∙ ap (λ x. x.1) h,
  )

  inserted :
      (v : SequenceRecord R.AppendTransaction) (c c' : SequenceCache R) {id : Handle}
      → insert_sequence v c ≡ (ok id, c')
      → (reserved private tables : ℕ) × (t : SequenceCache R) × (i : Handle) × (checked_add
            c.stats.reserved_pages v.reserved_pages
          ≡ some reserved)
        × (checked_add c.stats.active_private_state_bytes v.private_state_bytes ≡ some private)
        × (checked_add c.stats.page_table_bytes v.page_table_bytes ≡ some tables)
        × (put_in_slot v c ≡ (ok i, t))
        × (set_sequence_totals reserved private tables t ≡ c')
  unfolding insert_sequence
  inserted v c c' h = elim (Option-cases (checked_add c.stats.reserved_pages v.reserved_pages)) [
    | inl over ↦ absurd (cc (rw over at h))
    | inr (reserved, room) ↦
        elim (Option-cases (checked_add c.stats.active_private_state_bytes v.private_state_bytes)) [
          | inl over ↦ absurd (cc (rw (room, over) at h))
          | inr (private, room1) ↦
              elim (Option-cases (checked_add c.stats.page_table_bytes v.page_table_bytes)) [
                | inl over ↦ absurd (cc (rw (room, room1, over) at h))
                | inr (tables, room2) ↦
                    let (i, t, given, rest) =
                      continue-eq-ok (put_in_slot v c)
                        (λ i. modify (set_sequence_totals reserved private tables) >> pure i)
                        (rw (room, room1, room2) at h) in
                    (
                      reserved,
                      private,
                      tables,
                      t,
                      i,
                      room,
                      room1,
                      room2,
                      given,
                      modify-eq-ok (set_sequence_totals reserved private tables) i t rest,
                    )
              ]
        ]
  ]

  -- The totals of a cache with one more sequence.
  set_sequence_totals-IsAccounted :
      (v : SequenceRecord R.AppendTransaction) (c : SequenceCache R)
      (sequences : Arena (SequenceRecord R.AppendTransaction)) (reserved private tables : ℕ)
      {i : Handle}
      → IsSound c.sequences
      → IsAccounted c
      → insert {E = R.BackendError} "sequence slot" c.sequences v ≡ (ok i, sequences)
      → checked_add c.stats.reserved_pages v.reserved_pages ≡ some reserved
      → checked_add c.stats.active_private_state_bytes v.private_state_bytes ≡ some private
      → checked_add c.stats.page_table_bytes v.page_table_bytes ≡ some tables
      → IsAccounted
          (set_sequence_totals reserved private tables (record c { sequences = sequences }))
  set_sequence_totals-IsAccounted v c s reserved private tables sound a h room room1 room2 =
      let old = c.sequences in
      let (live, sized) = weigh-insert "sequence slot" (λ w. 1) old v sound h in
      let (more_reserved, _) = weigh-insert "sequence slot" (λ w. w.reserved_pages) old v sound h in
      let (more_private, _) =
        weigh-insert "sequence slot" (λ w. w.private_state_bytes) old v sound h in
      let (more_tables, _) = weigh-insert "sequence slot" (λ w. w.page_table_bytes) old v sound h in
      record {
        pages_tiled = a.pages_tiled;
        sequences_tiled = omega (
          arith,
          a.sequences_tiled,
          count_by-weigh old.slots,
          count_by-weigh s.slots,
          live,
          sized,
        );
        reserved = omega (
          arith,
          a.reserved,
          live_values-weigh (λ w. w.reserved_pages) old.slots,
          live_values-weigh (λ w. w.reserved_pages) s.slots,
          more_reserved,
          checked_add-eq_some (c.stats.reserved_pages) (v.reserved_pages) room,
        );
        private = omega (
          arith,
          a.private,
          live_values-weigh (λ w. w.private_state_bytes) old.slots,
          live_values-weigh (λ w. w.private_state_bytes) s.slots,
          more_private,
          checked_add-eq_some (c.stats.active_private_state_bytes) (v.private_state_bytes) room1,
        );
        tables = omega (
          arith,
          a.tables,
          live_values-weigh (λ w. w.page_table_bytes) old.slots,
          live_values-weigh (λ w. w.page_table_bytes) s.slots,
          more_tables,
          checked_add-eq_some (c.stats.page_table_bytes) (v.page_table_bytes) room2,
        );
        snapshots = a.snapshots;
        reclaimable = a.reclaimable;
      }

  -- On a cache whose running totals agree with its records, and whose sequence arena is sound, an
  -- insertion of a sequence that succeeds leaves the running totals in agreement with the records.
  pub insert_sequence-IsAccounted :
      (v : SequenceRecord R.AppendTransaction) (c c' : SequenceCache R) {id : Handle}
      → IsSound c.sequences
      → IsAccounted c
      → insert_sequence v c ≡ (ok id, c')
      → IsAccounted c'
  insert_sequence-IsAccounted v c c' sound a h =
      let (reserved, private, tables, t, i, room, room1, room2, given, end) = inserted v c c' h in
      let (filled, rest) = put v c t given in
      let whole =
        set_sequence_totals-IsAccounted v c t.sequences reserved private tables sound a filled room
          room1 room2 in
      subst IsAccounted end
        (subst (λ x. IsAccounted (set_sequence_totals reserved private tables x)) rest whole)
