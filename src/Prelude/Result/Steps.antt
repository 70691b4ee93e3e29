-- ===== src/Prelude/Result/Steps.antt =====
-- Inversion of a step that succeeded.
use accounting.Prelude.Result.{Action, Result, and_then, err, ok, ◌>>=◌}
use mathlib.Core.Path.{ap, refl, sym, ◌∙◌, ◌≡◌}

module _ {S A B : Type 0} where
  and_then_ok :
      (p : Result A × S) (f : A → Action S B) {b : B}
      → (and_then p.0 f p.1).0 ≡ ok b
      → (a : A) × (p.0 ≡ ok a) × ((f a p.1).0 ≡ ok b)
  and_then_ok (ok a, s) f h = (a, refl, h)
  and_then_ok (err e, s) f h = absurd (cc)

  pub >>=-step :
      (m : Action S A) (f : A → Action S B) (s : S) {b : B}
      → ((m >>= f) s).0 ≡ ok b
      → (a : A) × ((m s).0 ≡ ok a) × ((f a (m s).1).0 ≡ ok b)
  >>=-step m f s h = and_then_ok (m s) f h

  and_then_run :
      (p : Result A × S) (f : A → Action S B) {b : B}
      → (and_then p.0 f p.1).0 ≡ ok b
      → (a : A) × (p.0 ≡ ok a) × (and_then p.0 f p.1 ≡ f a p.1)
  and_then_run (ok a, s) f h = (a, refl, refl)
  and_then_run (err e, s) f h = absurd (cc)

  -- The same, with the state.
  pub >>=-run :
      (m : Action S A) (f : A → Action S B) (s : S) {b : B}
      → ((m >>= f) s).0 ≡ ok b
      → (a : A) × ((m s).0 ≡ ok a) × ((m >>= f) s ≡ f a (m s).1)
  >>=-run m f s h = and_then_run (m s) f h

  -- Both at once.
  pub >>=-trace :
      (m : Action S A) (f : A → Action S B) (s : S) {b : B}
      → ((m >>= f) s).0 ≡ ok b
      → (a : A) × ((m s).0 ≡ ok a) × ((m >>= f) s ≡ f a (m s).1) × ((f a (m s).1).0 ≡ ok b)
  >>=-trace m f s h =
      let (a, e, step) = and_then_run (m s) f h in (a, e, step, ap (λ p. p.0) (sym step) ∙ h)
