-- ===== src/Exec.antt =====
-- The `&mut self` methods of src/manager.rs: an action on the state `S` that may fail with an `E`.
-- What was written before an error stays written, so the state comes back beside the error too.
use seqcache.Prelude.{◌≡◌, refl, ap, Bool, if◌then◌else◌, List, [], ◌∷◌}
use seqcache.Error.{Result, ok, err, panic}

abbrev pub Exec : Type 0 → Type 0 → Type 0 → Type 0
Exec E S A = S → Result E A × S

module _ {E S A : Type 0} where
  abbrev pub pure : A → Exec E S A
  pure a s = (ok a, s)

  abbrev pub raise : E → Exec E S A
  raise e s = (err e, s)

  abbrev pub lift : Result E A → Exec E S A
  lift r s = (r, s)

  -- A reader of the state that may fail.
  abbrev pub reads : (S → Result E A) → Exec E S A
  reads f s = (f s, s)

  abbrev pub gets : (S → A) → Exec E S A
  gets f s = (ok (f s), s)

  -- An update that cannot fail, with its result.
  abbrev pub state : (S → A × S) → Exec E S A
  state f s = let (a, s') = f s in (ok a, s')

  -- The result of an action that its caller matches on, whether it failed or not.
  abbrev pub attempt : Exec E S A → Exec E S (Result E A)
  attempt m s = let (r, s') = m s in (ok r, s')

module _ {E S : Type 0} where
  abbrev pub modify : (S → S) → Exec E S (Unit {0})
  modify f s = (ok tt, f s)

  abbrev pub raise_if : Bool → E → Exec E S (Unit {0})
  raise_if b e s = (if b then err e else ok tt, s)

module _ {E S A B : Type 0} where
  abbrev pub continue : Result E A → (A → Exec E S B) → Exec E S B
  continue (ok a) f s = f a s
  continue (err e) f s = (err e, s)
  continue panic f s = (panic, s)

  infixl 10 ◌>>=◌ ◌>>◌
  abbrev pub ◌>>=◌ : Exec E S A → (A → Exec E S B) → Exec E S B
  ◌>>=◌ m f s = let (r, s') = m s in continue r f s'

  abbrev pub ◌>>◌ : Exec E S A → Exec E S B → Exec E S B
  m >> k = m >>= λ _. k

module _ {E S A B : Type 0} where
  -- A run that succeeds has a first step that succeeds.
  pub continue-eq-ok :
      (step : Result E A × S) (rest : A → Exec E S B) {v : B} {end : S}
      → continue step.0 rest step.1 ≡ (ok v, end)
      → (u : A) × (mid : S) × (step ≡ (ok u, mid)) × (rest u mid ≡ (ok v, end))
  continue-eq-ok (ok u, mid) rest h = (u, mid, refl, h)
  continue-eq-ok (err e, mid) rest h = absurd (cc h)
  continue-eq-ok (panic, mid) rest h = absurd (cc h)

module _ {E S A : Type 0} where
  pub modify-eq-ok :
      (f : S → S) (a : A) (s : S) {v : A} {end : S}
      → (modify {E = E} f >> pure a) s ≡ (ok v, end)
      → f s ≡ end
  modify-eq-ok f a s h = ap (λ x. x.1) h

module _ {E S A : Type 0} where
  -- `for a in list { body(a)?; }`
  abbrev pub each : (A → Exec E S (Unit {0})) → List A → Exec E S (Unit {0})
  each body [] = pure tt
  each body (a ∷ as') = body a >> each body as'
