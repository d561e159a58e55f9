-- ===== src/Cache/Contained.antt =====
-- Actions whose failures in the backend leave the ownership and the accounting of the cache.
use seqcache.Prelude.{List, ℕ, ◌≡◌, refl, ◌∙◌, Bool, true, false, Option, none, some}
use seqcache.Error.{CacheError, Result, ok, err, panic, ok_or, backend}
use seqcache.Error
use seqcache.Exec.{continue, ◌>>=◌}
use seqcache.Backend.{Runtime}
use seqcache.Arena.{Arena}
use seqcache.Config.{CacheConfig}
use seqcache.Index.{PrefixIndex}
use seqcache.Cache.Records.{PageRecord, SequenceRecord, PrefixEntry, Stats, SequenceCache}
use seqcache.Cache.Monad.{Outcome, Action}

abbrev pub is_backend : {E : Type 0} → CacheError E → Bool
is_backend (backend e) = true
is_backend _ = false

-- Whether a result is `CacheError::Backend`.
abbrev pub failed_in_backend : {E A : Type 0} → Result (CacheError E) A → Bool
failed_in_backend (err e) = is_backend e
failed_in_backend _ = false

module _ {E A : Type 0} where
  pub ok_or-internal :
      (o : Option A) (e : CacheError E)
      → is_backend e ≡ false
      → failed_in_backend (ok_or o e) ≡ false
  ok_or-internal none e h = h
  ok_or-internal (some a) e h = refl

module _ {E A B : Type 0} where
  pub bind-internal :
      (r : Result (CacheError E) A) (f : A → Result (CacheError E) B)
      → failed_in_backend r ≡ false
      → ((a : A) → failed_in_backend (f a) ≡ false)
      → failed_in_backend (Error.◌>>=◌ r f) ≡ false
  bind-internal (ok a) f h k = k a
  bind-internal (err e) f h k = h
  bind-internal panic f h k = refl

module _ {R : Runtime} where
  -- All of the cache but the storage, the nonce of the next append and the metrics.
  abbrev pub ledger :
      SequenceCache R
      → CacheConfig
        × ℕ
        × ℕ
        × PrefixIndex R.radix
        × Arena (PageRecord R.Page)
        × Arena (SequenceRecord R.AppendTransaction)
        × List (ℕ × PrefixEntry R.radix.Key R.Snapshot)
        × List (ℕ × ℕ)
        × ℕ
        × ℕ
        × Stats ℕ
        × ℕ
  ledger c = (
    c.config, c.page_bytes, c.page_capacity, c.index, c.pages, c.sequences, c.prefixes, c.lru,
    c.next_prefix_id, c.clock, c.stats, c.deferred_pages,
  )

  -- Whatever the result, the ledger stays.
  pub record Keeps {A : Type 0} (m : Action R A) : Type 0 where
    pub kept : (c : SequenceCache R) → ledger (m c).1 ≡ ledger c

  -- There is no failure in the backend.
  pub record IsInternal {A : Type 0} (m : Action R A) : Type 0 where
    pub inside : (c : SequenceCache R) → failed_in_backend (m c).0 ≡ false

  -- A failure in the backend leaves the ledger.
  pub record IsContained {A : Type 0} (m : Action R A) : Type 0 where
    pub contained :
        (c : SequenceCache R) → failed_in_backend (m c).0 ≡ true → ledger (m c).1 ≡ ledger c

module _ {R : Runtime} {A B : Type 0} where
  Keeps-continue :
      (r : Outcome R A) (c : SequenceCache R) (k : A → Action R B)
      → ((a : A) → Keeps (k a))
      → ledger (continue r k c).1 ≡ ledger c
  Keeps-continue (ok a) c k h = (h a).kept c
  Keeps-continue (err e) c k h = refl
  Keeps-continue panic c k h = refl

  pub Keeps-bind :
      (m : Action R A) (k : A → Action R B) → Keeps m → ((a : A) → Keeps (k a)) → Keeps (m >>= k)
  Keeps-bind m k first rest = record {
    kept = λ c. Keeps-continue (m c).0 (m c).1 k rest ∙ first.kept c;
  }

  IsInternal-continue :
      (r : Outcome R A) (c : SequenceCache R) (k : A → Action R B)
      → failed_in_backend r ≡ false
      → ((a : A) → IsInternal (k a))
      → failed_in_backend (continue r k c).0 ≡ false
  IsInternal-continue (ok a) c k h rest = (rest a).inside c
  IsInternal-continue (err e) c k h rest = h
  IsInternal-continue panic c k h rest = refl

  pub IsInternal-bind :
      (m : Action R A) (k : A → Action R B)
      → IsInternal m
      → ((a : A) → IsInternal (k a))
      → IsInternal (m >>= k)
  IsInternal-bind m k first rest = record {
    inside = λ c. IsInternal-continue (m c).0 (m c).1 k (first.inside c) rest;
  }

  IsContained-continue :
      (r : Outcome R A) (c : SequenceCache R) (k : A → Action R B)
      → ((a : A) → IsContained (k a))
      → failed_in_backend (continue r k c).0 ≡ true
      → ledger (continue r k c).1 ≡ ledger c
  IsContained-continue (ok a) c k rest h = (rest a).contained c h
  IsContained-continue (err e) c k rest h = refl
  IsContained-continue panic c k rest h = refl

  pub IsContained-bind :
      (m : Action R A) (k : A → Action R B)
      → Keeps m
      → ((a : A) → IsContained (k a))
      → IsContained (m >>= k)
  IsContained-bind m k first rest = record {
    contained = λ c h. IsContained-continue (m c).0 (m c).1 k rest h ∙ first.kept c;
  }

module _ {R : Runtime} {A : Type 0} where
  pub IsContained-IsInternal : (m : Action R A) → IsInternal m → IsContained m
  IsContained-IsInternal m i = record { contained = λ c h. absurd (cc (i.inside c, h)) }

  -- Reading, and an update of the storage, keep the ledger.
  pub keeps : {m : Action R A} → ((c : SequenceCache R) → ledger (m c).1 ≡ ledger c) → Keeps m
  keeps h = record { kept = h }

  pub internal :
      {m : Action R A} → ((c : SequenceCache R) → failed_in_backend (m c).0 ≡ false) → IsInternal m
  internal h = record { inside = h }
