-- ===== src/Backend/Keeping.antt =====
-- The contract of src/backend.rs up to what a client sees of the storage: a failed operation of a
-- backend on a device may leave another device state, yet the same pages and tables.
use seqcache.Prelude.{ℕ, ◌≡◌, refl, Bool, true, false, List}
use seqcache.Error.{ok, err, panic, Result}
use seqcache.Exec.{Exec, raise_if, ◌>>=◌, ◌>>◌}
use seqcache.Backend.{PageBackend, RetireError, BackendAppendPage, BackendAppendCommit}
use seqcache.Backend.Contract.{Unchanged, StillOpen, ComesBack}

module _ {S : Type 0} (Same : S → S → Type 0) where
  -- On an error, the same is seen.
  abbrev pub Failing : {E A : Type 0} → S → Result E A × S → Type 0
  Failing s (err e, s') = Same s s'
  Failing s _ = Unit {0}

  -- Also on success.
  abbrev pub Quiet : {E A : Type 0} → S → Result E A × S → Type 0
  Quiet s (panic, s') = Unit {0}
  Quiet s (_, s') = Same s s'

  abbrev pub FailingOpen : {T E A : Type 0} → T → S → Result E A × T × S → Type 0
  FailingOpen t s (err e, t', s') = (t' ≡ t) × Same s s'
  FailingOpen t s _ = Unit {0}

  abbrev pub FailingBack : {E P A : Type 0} → List P → S → Result (RetireError E P) A × S → Type 0
  FailingBack pages s (err e, s') = Same s s' × (e.pages ≡ pages)
  FailingBack pages s _ = Unit {0}

-- The very same state.
abbrev pub IsSame : {S : Type 0} → S → S → Type 0
IsSame s s' = s' ≡ s

pub Unchanged-Failing :
    {S E A : Type 0} (s : S) (x : Result E A × S) → Unchanged s x → Failing IsSame s x
Unchanged-Failing s (ok a, s') h = tt
Unchanged-Failing s (err e, s') h = h
Unchanged-Failing s (panic, s') h = tt

pub StillOpen-FailingOpen :
    {S T E A : Type 0} (t : T) (s : S) (x : Result E A × T × S)
    → StillOpen t s x
    → FailingOpen IsSame t s x
StillOpen-FailingOpen t s (ok a, t', s') h = tt
StillOpen-FailingOpen t s (err e, t', s') h = h
StillOpen-FailingOpen t s (panic, t', s') h = tt

pub ComesBack-FailingBack :
    {S E P A : Type 0} (pages : List P) (s : S) (x : Result (RetireError E P) A × S)
    → ComesBack pages s x
    → FailingBack IsSame pages s x
ComesBack-FailingBack pages s (ok a, s') h = tt
ComesBack-FailingBack pages s (err e, s') h = h
ComesBack-FailingBack pages s (panic, s') h = tt

-- A result that is no error.
abbrev pub Sure : {S E A : Type 0} → Result E A × S → Type 0
Sure (err e, s) = ⊥
Sure _ = Unit {0}

pub FailingOpen-Failing :
    {S T E A : Type 0} (Same : S → S → Type 0) (t : T) (s : S) (x : Result E A × S)
    → Failing Same s x
    → FailingOpen Same t s (x.0, t, x.1)
FailingOpen-Failing Same t s (ok a, s') h = tt
FailingOpen-Failing Same t s (err e, s') h = (refl, h)
FailingOpen-Failing Same t s (panic, s') h = tt

pub reads-Quiet :
    {S A E : Type 0} (Same : S → S → Type 0) (s : S) (r : Result E A)
    → Same s s
    → Quiet Same s (r, s)
reads-Quiet Same s (ok a) same = same
reads-Quiet Same s (err e) same = same
reads-Quiet Same s panic same = tt

pub Quiet-Failing :
    {S E A : Type 0} (Same : S → S → Type 0) (s : S) (x : Result E A × S)
    → Quiet Same s x
    → Failing Same s x
Quiet-Failing Same s (ok a, s') h = tt
Quiet-Failing Same s (err e, s') h = h
Quiet-Failing Same s (panic, s') h = tt

pub Sure-Failing :
    {S E A : Type 0} (Same : S → S → Type 0) (s : S) (x : Result E A × S)
    → Sure x
    → Failing Same s x
Sure-Failing Same s (ok a, s') h = tt
Sure-Failing Same s (err e, s') h = absurd h
Sure-Failing Same s (panic, s') h = tt

pub Failing-weaken :
    {S E A : Type 0} (Strong Weak : S → S → Type 0) (s : S) (x : Result E A × S)
    → ((s' : S) → Strong s s' → Weak s s')
    → Failing Strong s x
    → Failing Weak s x
Failing-weaken Strong Weak s (ok a, s') weaken h = tt
Failing-weaken Strong Weak s (err e, s') weaken h = weaken s' h
Failing-weaken Strong Weak s (panic, s') weaken h = tt

pub raise_if-Quiet :
    {S E : Type 0} (Same : S → S → Type 0) (s : S) (test : Bool) (e : E)
    → Same s s
    → Quiet Same s (raise_if test e s)
raise_if-Quiet Same s true e same = same
raise_if-Quiet Same s false e same = same

pub then-Sure :
    {S E A B : Type 0} (x : Result E A × S) (k : Exec E S B) (s : S)
    → Sure x
    → ((s' : S) → Sure (k s'))
    → Sure (((λ (t : S). x) >> k) s)
then-Sure (ok a, s') k s h rest = rest s'
then-Sure (err e, s') k s h rest = h
then-Sure (panic, s') k s h rest = tt

-- What follows a first step, where that leaves the `Strong` same and the rest the `Weak` same.
module _ {S : Type 0} (Strong Weak : S → S → Type 0)
    (weaken : (a b c : S) → Strong a b → Weak b c → Weak a c)
    (first : (a b : S) → Strong a b → Weak a b) {E A B : Type 0} (s : S) (k : A → Exec E S B) where
  pub Failing-since :
      (x : Result E A × S)
      → Quiet Strong s x
      → ((a : A) → (s' : S) → Strong s s' → Failing Weak s' (k a s'))
      → Failing Weak s (((λ (t : S). x) >>= k) s)
  Failing-since (ok a, s') quiet rest = after (k a s') (rest a s' quiet)
    where
      after : (y : Result E B × S) → Failing Weak s' y → Failing Weak s y
      after (ok b, s'') h = tt
      after (err e, s'') h = weaken s s' s'' quiet h
      after (panic, s'') h = tt
  Failing-since (err e, s') quiet rest = first s s' quiet
  Failing-since (panic, s') quiet rest = tt

module _ {S : Type 0} (Same : S → S → Type 0) (trans : (a b c : S) → Same a b → Same b c → Same a c)
    {E A B : Type 0} (s : S) (k : A → Exec E S B) where
  pub Failing-after :
      (x : Result E A × S)
      → Quiet Same s x
      → ((a : A) → (s' : S) → Same s s' → Failing Same s' (k a s'))
      → Failing Same s (((λ (t : S). x) >>= k) s)
  Failing-after x quiet rest = Failing-since Same Same trans (λ _ _ h. h) s k x quiet rest

  pub Quiet-after :
      (x : Result E A × S)
      → Quiet Same s x
      → ((a : A) → (s' : S) → Same s s' → Quiet Same s' (k a s'))
      → Quiet Same s (((λ (t : S). x) >>= k) s)
  Quiet-after (ok a, s') quiet rest = after (k a s') (rest a s' quiet)
    where
      after : (y : Result E B × S) → Quiet Same s' y → Quiet Same s y
      after (ok b, s'') h = trans s s' s'' quiet h
      after (err e, s'') h = trans s s' s'' quiet h
      after (panic, s'') h = tt
  Quiet-after (err e, s') quiet rest = quiet
  Quiet-after (panic, s') quiet rest = tt

  pub Failing-before :
      (x : Result E A × S)
      → Failing Same s x
      → ((a : A) → (s' : S) → Sure (k a s'))
      → Failing Same s (((λ (t : S). x) >>= k) s)
  Failing-before (ok a, s') failing rest = before (k a s') (rest a s')
    where
      before : (y : Result E B × S) → Sure y → Failing Same s y
      before (ok b, s'') h = tt
      before (err e, s'') h = absurd h
      before (panic, s'') h = tt
  Failing-before (err e, s') failing rest = failing
  Failing-before (panic, s') failing rest = tt

-- The operations that may fail, on one storage.
pub record KeepsSeen (B : PageBackend) (Same : B.Storage → B.Storage → Type 0) (s : B.Storage)
    : Type 0 where
  pub allocate_page : Failing Same s (B.allocate_page s)
  pub prepare_append :
      (pages : List (BackendAppendPage B.Page)) (position : ℕ)
      → Failing Same s (B.prepare_append pages position s)
  pub abort_append :
      (t : B.AppendTransaction) (restored released : List B.Page) (position : ℕ)
      → FailingOpen Same t s (B.abort_append t restored released position s)
  pub copy_partial_page :
      (source : B.Page) (valid_tokens : ℕ)
      → Failing Same s (B.copy_partial_page source valid_tokens s)
  pub commit_append :
      (t : B.AppendTransaction) (commit : BackendAppendCommit B.Page)
      → FailingOpen Same t s (B.commit_append t commit s)
  pub update_page_table :
      (pages : List B.Page) (position : ℕ) → Failing Same s (B.update_page_table pages position s)
  pub retire_pages : (pages : List B.Page) → FailingBack Same pages s (B.retire_pages pages s)
