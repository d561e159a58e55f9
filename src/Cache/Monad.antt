-- ===== src/Cache/Monad.antt =====
-- The types of the methods of `SequenceCache`: `&self` methods are readers, `&mut self` methods are
-- actions.
use seqcache.Prelude.{ℕ, ◌∷◌}
use seqcache.Error.{CacheError, Result}
use seqcache.Error
use seqcache.Exec.{Exec}
use seqcache.Backend.{Runtime}
use seqcache.Cache.Records.{SequenceCache, Counter, backend_failures}

abbrev pub Outcome : Runtime → Type 0 → Type 0
Outcome R A = Result (CacheError R.BackendError) A

abbrev pub Action : Runtime → Type 0 → Type 0
Action R A = Exec (CacheError R.BackendError) (SequenceCache R) A

module _ {R : Runtime} where
  abbrev pub counted : Counter → ℕ → SequenceCache R → SequenceCache R
  counted k n c = record c { metrics = record (c.metrics) { counted = (k, n) ∷ c.metrics.counted } }

  -- `self.metrics.counter.inc()`, and `.add(n)`.
  abbrev pub add : Counter → ℕ → Action R (Unit {0})
  add k n c = (Error.ok tt, counted k n c)

  abbrev pub inc : Counter → Action R (Unit {0})
  inc k = add k 1

module _ {R : Runtime} {A : Type 0} where
  -- A backend operation, its failure as it is.
  abbrev pub on_backend :
      (R.Storage → Result R.BackendError A × R.Storage) → Action R (Result R.BackendError A)
  on_backend f c = let (r, b) = f c.backend in (Error.ok r, record c { backend = b })

  -- A backend failure, counted and returned.
  abbrev pub backend_error : R.BackendError → Action R A
  backend_error e c = (Error.err (Error.backend e), counted backend_failures 1 c)

  -- `.map_err(|error| { self.metrics.backend_failures.inc(); CacheError::Backend(error) })?`
  abbrev pub or_backend_error : Result R.BackendError A → Action R A
  or_backend_error (Error.ok a) c = (Error.ok a, c)
  or_backend_error (Error.err e) c = backend_error e c
  or_backend_error Error.panic c = (Error.panic, c)
