-- ===== src/Backend/Contract.antt =====
-- What the doc of `PageBackend` in src/backend.rs asks of an operation that fails: it must not have
-- partially succeeded. Backend/Keeping has the contract with the partial-page copy, on one storage.
use seqcache.Prelude.{ℕ, ◌≡◌, List}
use seqcache.Error.{Result, err}
use seqcache.Backend.{PageBackend, RetireError, BackendAppendPage, BackendAppendCommit}

-- On an error, the storage is what it was.
abbrev pub Unchanged : {S E A : Type 0} → S → Result E A × S → Type 0
Unchanged s (err e, s') = s' ≡ s
Unchanged s _ = Unit {0}

-- On an error, the storage and the lent transaction are what they were.
abbrev pub StillOpen : {S T E A : Type 0} → T → S → Result E A × T × S → Type 0
StillOpen t s (err e, t', s') = (t' ≡ t) × (s' ≡ s)
StillOpen t s _ = Unit {0}

-- On an error, the storage is what it was, and every page comes back.
abbrev pub ComesBack : {S E P A : Type 0} → List P → S → Result (RetireError E P) A × S → Type 0
ComesBack pages s (err e, s') = (s' ≡ s) × (e.pages ≡ pages)
ComesBack pages s _ = Unit {0}

pub record KeepsOnError (B : PageBackend) : Type 0 where
  pub allocate_page : (s : B.Storage) → Unchanged s (B.allocate_page s)
  pub prepare_append :
      (pages : List (BackendAppendPage B.Page)) (position : ℕ) (s : B.Storage)
      → Unchanged s (B.prepare_append pages position s)
  pub abort_append :
      (t : B.AppendTransaction) (restored released : List B.Page) (position : ℕ) (s : B.Storage)
      → StillOpen t s (B.abort_append t restored released position s)
  pub commit_append :
      (t : B.AppendTransaction) (commit : BackendAppendCommit B.Page) (s : B.Storage)
      → StillOpen t s (B.commit_append t commit s)
  pub update_page_table :
      (pages : List B.Page) (position : ℕ) (s : B.Storage)
      → Unchanged s (B.update_page_table pages position s)
  pub retire_pages :
      (pages : List B.Page) (s : B.Storage) → ComesBack pages s (B.retire_pages pages s)
