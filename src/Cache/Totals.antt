-- ===== src/Cache/Totals.antt =====
-- src/manager.rs: the arithmetic that `compute_stats` and `refresh_stats` share.
use seqcache.Prelude.{ℕ, ◌/◌, Bool, ◌&&◌, not, none, some, List, [], ◌∷◌, ◌==◌, is_some}
use seqcache.Word.{checked_add, checked_mul, saturating_add, saturating_sub, min_of}
use seqcache.Error.{CacheError, Result, ok, ok_or, and_then, arithmetic_overflow, ◌>>=◌}
use seqcache.Arena.{Slot}
use seqcache.Backend.{Runtime}
use seqcache.Cache.Records.{PageRecord, SequenceCache}

abbrev pub is_live : {A : Type 0} → Slot A → Bool
is_live s = is_some s.value

-- `iter().filter_map(|slot| slot.value.as_ref())`
abbrev pub live_values : {A : Type 0} → List (Slot A) → List A
live_values [] = []
live_values (s ∷ ss) = elim s.value [ none ↦ live_values ss | some v ↦ v ∷ live_values ss ]

abbrev pub is_reclaimable : {P : Type 0} → PageRecord P → Bool
is_reclaimable page = page.active_refs == 0 && not (page.prefix_refs == 0)

module _ {E A : Type 0} (f : A → ℕ) where
  -- `try_fold` of `checked_add`
  abbrev pub try_total : ℕ → List A → Result (CacheError E) ℕ
  try_total total [] = ok total
  try_total total (a ∷ as') =
      ok_or (checked_add total (f a)) arithmetic_overflow >>= λ t. try_total t as'

module _ {E : Type 0} where
  -- The sum of the five managed classes.
  abbrev pub managed_total : ℕ → ℕ → ℕ → ℕ → ℕ → Result (CacheError E) ℕ
  managed_total pages reserved private snapshots tables =
      ok_or
        (and_then
          (and_then (and_then (checked_add pages reserved) (λ t. checked_add t private))
            (λ t. checked_add t snapshots))
          (λ t. checked_add t tables))
        arithmetic_overflow

  abbrev pub checked_bytes : ℕ → ℕ → Result (CacheError E) ℕ
  checked_bytes pages page_bytes = ok_or (checked_mul pages page_bytes) arithmetic_overflow

module _ {R : Runtime} where
  -- `(uncommitted_bytes / page_bytes).min(free_page_slots)`
  abbrev pub free_pages_of : SequenceCache R → ℕ → ℕ → ℕ → ℕ
  free_pages_of c total resident reserved =
      min_of (saturating_sub c.config.max_managed_bytes total / c.page_bytes)
        (saturating_sub c.page_capacity (saturating_add resident reserved))
