-- ===== src/Outcome/Rules.antt =====
-- A logic for the code in `Exec`: what holds after a run that returned, and after one that did not.
use energychain_node.Prelude.{◌≡◌, refl, sym, subst, Bool, true, false}
use energychain_node.Outcome.Monad.{
  Outcome, ok, ok-injective, err, panic, Exec, continue, require, save,
}

module _ {E S A : Type 0} where
  -- `Q` of the value and the store after a return, `R` of the store after an error or a panic.
  abbrev pub Ends : (A → S → Type 0) → (S → Type 0) → Outcome E A × S → Type 0
  Ends Q R (ok a, s) = Q a s
  Ends Q R (err e, s) = R s
  Ends Q R (panic, s) = R s

  pub Ends-weaken :
      (Q Q' : A → S → Type 0) (R R' : S → Type 0) (r : Outcome E A × S)
      → ((a : A) (s : S) → Q a s → Q' a s)
      → ((s : S) → R s → R' s)
      → Ends Q R r
      → Ends Q' R' r
  Ends-weaken Q Q' R R' (ok a, s) q r h = q a s h
  Ends-weaken Q Q' R R' (err e, s) q r h = r s h
  Ends-weaken Q Q' R R' (panic, s) q r h = r s h

  -- What holds however the run ends.
  pub Ends-store : (R : S → Type 0) (r : Outcome E A × S) → Ends (λ _. R) R r → R r.1
  Ends-store R (ok a, s) h = h
  Ends-store R (err e, s) h = h
  Ends-store R (panic, s) h = h

  pub Ends-of_store : (R : S → Type 0) (r : Outcome E A × S) → R r.1 → Ends (λ _. R) R r
  Ends-of_store R (ok a, s) h = h
  Ends-of_store R (err e, s) h = h
  Ends-of_store R (panic, s) h = h

  pub Ends-ok :
      (Q : A → S → Type 0) (R : S → Type 0) (r : Outcome E A × S) (a : A)
      → r.0 ≡ ok a
      → Ends Q R r
      → Q a r.1
  Ends-ok Q R (ok b, s) a e h = subst (λ x. Q x s) (ok-injective e) h
  Ends-ok Q R (err x, s) a e h = cc
  Ends-ok Q R (panic, s) a e h = cc

module _ {E S A B : Type 0} where
  -- The rule for `>>=`: what is known when the first part fails must give what is claimed then.
  pub Ends-bind :
      (Q : A → S → Type 0) (R : S → Type 0) (Q' : B → S → Type 0) (R' : S → Type 0)
      (r : Outcome E A × S) (f : A → Exec E S B)
      → Ends Q R r
      → ((s : S) → R s → R' s)
      → ((a : A) (s : S) → Q a s → Ends Q' R' (f a s))
      → Ends Q' R' (continue r.0 f r.1)
  Ends-bind Q R Q' R' (ok a, s) f h failed next = next a s h
  Ends-bind Q R Q' R' (err e, s) f h failed next = failed s h
  Ends-bind Q R Q' R' (panic, s) f h failed next = failed s h

module _ {E S : Type 0} where
  pub Ends-require :
      (Q : Unit {0} → S → Type 0) (R : S → Type 0) (test : Bool) (e : E) (s : S)
      → (test ≡ true → Q tt s)
      → (test ≡ false → R s)
      → Ends Q R (require test e s)
  Ends-require Q R true e s q r = q refl
  Ends-require Q R false e s q r = r refl

  pub Ends-save :
      (Q : Unit {0} → S → Type 0) (R : S → Type 0) (test : Bool) (f : S → S) (e : E) (s : S)
      → (test ≡ true → Q tt (f s))
      → (test ≡ false → R s)
      → Ends Q R (save test f e s)
  Ends-save Q R true f e s q r = q refl
  Ends-save Q R false f e s q r = r refl

module _ {E S A B : Type 0} where
  -- A part that returned is stepped over.
  pub continue_ok :
      (r : Outcome E A × S) (f : A → Exec E S B) (a : A) (b : B)
      → r.0 ≡ ok a
      → (f a r.1).0 ≡ ok b
      → (continue r.0 f r.1).0 ≡ ok b
  continue_ok (ok x, s) f a b e h = subst (λ y. (f y s).0 ≡ ok b) (sym (ok-injective e)) h
  continue_ok (err x, s) f a b e h = cc
  continue_ok (panic, s) f a b e h = cc

  -- A sequence that returned did so in both of its parts.
  pub continue_inv :
      (r : Outcome E A × S) (f : A → Exec E S B) (b : B)
      → (continue r.0 f r.1).0 ≡ ok b
      → (a : A) × (r.0 ≡ ok a) × ((f a r.1).0 ≡ ok b) × (continue r.0 f r.1 ≡ f a r.1)
  continue_inv (ok a, s) f b h = (a, refl, h, refl)
  continue_inv (err e, s) f b h = cc
  continue_inv (panic, s) f b h = cc
