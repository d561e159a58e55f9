-- ===== src/Error.antt =====
-- src/error.rs: the errors of configuration and of cache operations, and results as values. A
-- `panic` is an `expect` or an index that fails.
use mathlib.Core.Option.{Option, none, some}
use Prim.Native.String.{String}
use seqcache.Prelude.{◌≡◌, refl, ◌⊎◌, inl, inr, Bool, true, false, if◌then◌else◌}

pub data ConfigError : Type 0 where
  zero_page_tokens zero_page_bytes zero_managed_bytes page_exceeds_managed_bytes : ConfigError
  emergency_capacity_exceeds_managed_bytes snapshot_limit_exceeds_managed_bytes : ConfigError
  managed_bytes_exceed_metric_range capacity_overflow : ConfigError

-- The payload of `id_exhausted` and `invariant` is the source's message.
pub data CacheError (E : Type 0) : Type 0 where
  config : ConfigError → CacheError E
  stale_sequence stale_page stale_prefix invalid_position invalid_token_prefix : CacheError E
  snapshot_capacity prefix_capacity arithmetic_overflow : CacheError E
  id_exhausted invariant : String → CacheError E
  append_pending no_append_pending append_reservation_mismatch : CacheError E
  append_batch_size_mismatch : CacheError E
  backend : E → CacheError E

pub data Result (E A : Type 0) : Type 0 where
  ok : A → Result E A
  err : E → Result E A
  panic : Result E A

-- `option.and_then(f)`
abbrev pub and_then {ℓ κ} : {A : Type ℓ} {B : Type κ} → Option A → (A → Option B) → Option B
and_then none f = none
and_then (some a) f = f a

-- `if test { return Err(error); }`
abbrev pub reject_if : {E : Type 0} → Bool → E → Result E (Unit {0})
reject_if b e = if b then err e else ok tt

module _ {E A : Type 0} where
  -- `option.ok_or(error)`
  abbrev pub ok_or : Option A → E → Result E A
  ok_or (some a) e = ok a
  ok_or none e = err e

  -- `option.expect(…)`
  abbrev pub expect : Option A → Result E A
  expect (some a) = ok a
  expect none = panic

  -- `result.ok()`
  abbrev pub to_option : Result E A → Option A
  to_option (ok a) = some a
  to_option _ = none

  abbrev pub is_ok : Result E A → Bool
  is_ok (ok a) = true
  is_ok _ = false

  pub Result-cases :
      (m : Result E A) → ((a : A) × (m ≡ ok a)) ⊎ ((e : E) × (m ≡ err e)) ⊎ (m ≡ panic)
  Result-cases (ok a) = inl (a, refl)
  Result-cases (err e) = inr (inl (e, refl))
  Result-cases panic = inr (inr refl)

module _ {E A B : Type 0} where
  infixl 10 ◌>>=◌ ◌>>◌
  abbrev pub ◌>>=◌ : Result E A → (A → Result E B) → Result E B
  ok a >>= f = f a
  err e >>= f = err e
  panic >>= f = panic

  abbrev pub ◌>>◌ : Result E A → Result E B → Result E B
  m >> k = m >>= λ _. k

  -- A chain that succeeds has a first step that succeeds.
  pub >>=-eq-ok :
      {v : B} (first : Result E A) (next : A → Result E B)
      → (first >>= next) ≡ ok v
      → (u : A) × (first ≡ ok u) × (next u ≡ ok v)
  >>=-eq-ok (ok u) next end = (u, refl, end)
  >>=-eq-ok (err e) next end = cc
  >>=-eq-ok panic next end = cc
