-- ===== src/Prelude/Result/Pure.antt =====
-- `do` blocks over `Result` alone, for checks that read no store.
use accounting.Prelude.Result.{Result, err, ok}
use mathlib.Core.Path.{refl, ◌≡◌}

infixl 5 ◌>>=◌ ◌>>◌
abbrev pub ◌>>=◌ {ℓ κ} : {A : Type ℓ} {B : Type κ} → Result A → (A → Result B) → Result B
ok a >>= f = f a
err e >>= f = err e

abbrev pub ◌>>◌ {ℓ κ} : {A : Type ℓ} {B : Type κ} → Result A → Result B → Result B
m >> k = m >>= λ _. k

-- Where a chain has an answer, so has its first part, and the rest answers it.
module _ {ℓ κ} {A : Type ℓ} {B : Type κ} (rest : A → Result B) {b : B} where
  pub answer_of :
      (first : Result A) → ok b ≡ (first >>= rest) → (a : A) × (ok b ≡ rest a) × (first ≡ ok a)
  answer_of (err x) h = absurd (cc)
  answer_of (ok a) h = (a, h, refl)
