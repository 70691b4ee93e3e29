-- ===== src/Prelude/Result.antt =====
-- Failures as values, and calls that change a store. What a call has written before it fails stays
-- written, so the store comes back beside an error too.
pub mod Pure
pub mod Steps
use accounting.Prelude.{inl, inr, ℕ, ◌⊎◌}
use accounting.Prelude.Tests.{if◌then◌else◌}
use mathlib.Core.Bool.{Bool, false, true}
use mathlib.Core.Option.{Option, none, some}
use mathlib.Core.Path.{refl, ◌≡◌}

-- The sentinel errors of the packages, and every other error; a locked login says for how long.
pub data Error : Type 0 where
  access_denied invalid_input not_found invalid_credentials failure : Error
  login_locked : ℕ → Error

pub data Result {ℓ} (A : Type ℓ) : Type ℓ where
  ok : A → Result A
  err : Error → Result A

-- `errors.Wrapf(e, …)` in place of whatever the call answered.
abbrev pub or_fail {ℓ} : {A : Type ℓ} → Error → Result A → Result A
or_fail e (ok a) = ok a
or_fail e (err _) = err e

abbrev pub from_option {ℓ} : {A : Type ℓ} → Error → Option A → Result A
from_option e none = err e
from_option e (some a) = ok a

-- A check that stops with the error where its condition holds.
abbrev pub fail_if : Bool → Error → Result (Unit {0})
fail_if c e = if c then err e else ok tt

abbrev pub Action : Type 0 → Type 0 → Type 0
Action S A = S → Result A × S

module _ {S A : Type 0} where
  abbrev pub pure : A → Action S A
  pure a s = (ok a, s)

  abbrev pub raise : Error → Action S A
  raise e s = (err e, s)

  abbrev pub lift : Result A → Action S A
  lift r s = (r, s)

  -- A read of the store, which may fail.
  abbrev pub reads : (S → Result A) → Action S A
  reads f s = (f s, s)

abbrev pub and_then : {S A B : Type 0} → Result A → (A → Action S B) → Action S B
and_then (ok a) f s = f a s
and_then (err e) f s = (err e, s)

infixl 5 ◌>>=◌ ◌>>◌
abbrev pub ◌>>=◌ : {S A B : Type 0} → Action S A → (A → Action S B) → Action S B
◌>>=◌ m f s = let (r, s') = m s in and_then r f s'

abbrev pub ◌>>◌ : {S A B : Type 0} → Action S A → Action S B → Action S B
m >> k = m >>= λ _. k

abbrev pub check : {S : Type 0} → Bool → Error → Action S (Unit {0})
check c e = lift (fail_if c e)

pub Result-cases {ℓ} :
    {A : Type ℓ} (x : Result A) → ((a : A) × (x ≡ ok a)) ⊎ ((e : Error) × (x ≡ err e))
Result-cases (ok a) = inl (a, refl)
Result-cases (err e) = inr (e, refl)
