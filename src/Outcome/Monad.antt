-- ===== src/Outcome/Monad.antt =====
-- How a Go function that changes the store ends: it returns a value, returns an error, or panics.
-- The store comes back in all three cases, since what was written before an error stays written in
-- the context that the handler was given.
use energychain_node.Prelude.{◌≡◌, Bool, Option, none, some, if◌then◌else◌}

pub data Outcome {ℓ} (E A : Type ℓ) : Type ℓ where
  ok : A → Outcome E A
  err : E → Outcome E A
  panic : Outcome E A

pub ok-injective {ℓ} : {E A : Type ℓ} {a b : A} → ◌≡◌ {A = Outcome E A} (ok a) (ok b) → a ≡ b
ok-injective h = cc

abbrev pub Exec {ℓ} : Type ℓ → Type ℓ → Type ℓ → Type ℓ
Exec E S A = S → Outcome E A × S

module _ {ℓ} {E S A : Type ℓ} where
  abbrev pub pure : A → Exec E S A
  pure a s = (ok a, s)

  abbrev pub fail : E → Exec E S A
  fail e s = (err e, s)

  abbrev pub gets : (S → A) → Exec E S A
  gets f s = (ok (f s), s)

  abbrev pub lift : Outcome E A → Exec E S A
  lift r s = (r, s)

module _ {ℓ} {E S A B : Type ℓ} where
  abbrev pub continue : Outcome E A → (A → Exec E S B) → Exec E S B
  continue (ok a) f s = f a s
  continue (err e) f s = (err e, s)
  continue panic f s = (panic, s)

  infixl 5 ◌>>=◌ ◌>>◌
  abbrev pub ◌>>=◌ : Exec E S A → (A → Exec E S B) → Exec E S B
  ◌>>=◌ m f s = continue (m s).0 f (m s).1

  abbrev pub ◌>>◌ : Exec E S A → Exec E S B → Exec E S B
  m >> n = m >>= λ _. n

module _ {E S : Type 0} where
  -- `if !test { return nil, e }`
  abbrev pub require : Bool → E → Exec E S (Unit {0})
  require test e s = if test then (ok tt, s) else (err e, s)

  -- A fallible write: `test` says whether the collection takes it.
  abbrev pub save : Bool → (S → S) → E → Exec E S (Unit {0})
  save test f e s = if test then (ok tt, f s) else (err e, s)

  abbrev pub modify : (S → S) → Exec E S (Unit {0})
  modify f s = (ok tt, f s)

module _ {ℓ} {E A : Type ℓ} where
  -- A lookup that the caller answers with an error when it finds nothing.
  abbrev pub some_or : E → Option A → Outcome E A
  some_or e none = err e
  some_or e (some a) = ok a

  -- `if err := …; err != nil { panic(…) }`
  abbrev pub panic_on_err : Outcome E A → Outcome E A
  panic_on_err (ok a) = ok a
  panic_on_err (err e) = panic
  panic_on_err panic = panic

  abbrev pub or_panic : {S : Type ℓ} → Exec E S A → Exec E S A
  or_panic m s = (panic_on_err (m s).0, (m s).1)
