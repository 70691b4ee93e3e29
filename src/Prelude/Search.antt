-- ===== src/Prelude/Search.antt =====
-- Search and counting in lists, and what sorting leaves unchanged of them.
use Prim.Native.Nat.{ℕ, ◌+◌, ◌≤◌}
use mathlib.Core.Path.{◌≡◌, refl, subst, ◌∙◌}
use mathlib.Core.Logic.{inl, inr}
use mathlib.Core.Bool.{Bool, true, ◌||◌}
use mathlib.Core.Option.{Option, none, some}
use mathlib.Core.List.{List, [], ◌∷◌}
use native.Mathlib.Omega.{arith}
use accounting.Prelude.Tests.{if◌then◌else◌, Bool-cases}
use accounting.Prelude.Lists.{All, insert_by, sort_by}

module _ {ℓ} {A : Type ℓ} where
  -- The first element that passes the test, as in a loop that returns it.
  unfoldable pub find : (A → Bool) → List A → Option A
  find p [] = none
  find p (x ∷ xs) = if p x then some x else find p xs

  unfoldable pub count : (A → Bool) → List A → ℕ
  count p [] = 0
  count p (x ∷ xs) = (if p x then 1 else 0) + count p xs

  -- At most one element passes the test.
  abbrev pub AtMostOnce : (A → Bool) → List A → Type ℓ
  AtMostOnce p [] = Unit
  AtMostOnce p (x ∷ xs) = (p x ≡ true → find p xs ≡ none) × AtMostOnce p xs

  pub find-All {κ} :
      (P : A → Type κ) (p : A → Bool) (xs : List A) (a : A) → find p xs ≡ some a → All P xs → P a
  unfolding find
  find-All P p [] a e h = absurd (cc)
  find-All P p (x ∷ xs) a e h = elim (Bool-cases (p x)) [
    | inl t ↦ subst P (ground arith) h.0
    | inr f ↦ find-All P p xs a (ground arith) h.1
  ]

  pub find_passes : (p : A → Bool) (xs : List A) (a : A) → find p xs ≡ some a → p a ≡ true
  unfolding find
  find_passes p [] a e = cc
  find_passes p (x ∷ xs) a e = ground (arith, find_passes p xs a)

  pub count-zero_of_none : (p : A → Bool) (xs : List A) → find p xs ≡ none → count p xs ≡ 0
  unfolding find count
  count-zero_of_none p [] e = refl
  count-zero_of_none p (x ∷ xs) e = ground (arith, count-zero_of_none p xs)

  pub count-le-one : (p : A → Bool) (xs : List A) → AtMostOnce p xs → count p xs ≤ 1
  unfolding count
  count-le-one p [] h = omega arith
  count-le-one p (x ∷ xs) h = ground (arith, count-le-one p xs h.1, h.0, count-zero_of_none p xs)

  pub count-le-add :
      (p q r : A → Bool) (xs : List A)
      → ((x : A) → p x ≡ true → (q x || r x) ≡ true)
      → count p xs ≤ count q xs + count r xs
  unfolding count
  count-le-add p q r [] h = omega arith
  count-le-add p q r (x ∷ xs) h = ground (arith, h x, count-le-add p q r xs h)

  find-insert_by :
      (p : A → Bool) (before : A → A → Bool) (x : A) (xs : List A)
      → (p x ≡ true → find p xs ≡ none)
      → find p (insert_by before x xs) ≡ (if p x then some x else find p xs)
  unfolding find insert_by
  find-insert_by p before x [] h = refl
  find-insert_by p before x (y ∷ ys) h = ground (arith, h, find-insert_by p before x ys)

  -- Sorting does not change which element is found, if at most one passes the test.
  pub find-sort_by :
      (p : A → Bool) (before : A → A → Bool) (xs : List A)
      → AtMostOnce p xs
      → find p (sort_by before xs) ≡ find p xs
  unfolding find sort_by
  find-sort_by p before [] h = refl
  find-sort_by p before (x ∷ xs) h =
      let ih = find-sort_by p before xs h.1 in
      find-insert_by p before x (sort_by before xs) (λ t. ih ∙ h.0 t) ∙ ground (arith, ih)

  count-insert_by :
      (p : A → Bool) (before : A → A → Bool) (x : A) (xs : List A)
      → count p (insert_by before x xs) ≡ (if p x then 1 else 0) + count p xs
  unfolding count insert_by
  count-insert_by p before x [] = refl
  count-insert_by p before x (y ∷ ys) = ground (arith, count-insert_by p before x ys)

  pub count-sort_by :
      (p : A → Bool) (before : A → A → Bool) (xs : List A)
      → count p (sort_by before xs) ≡ count p xs
  unfolding count sort_by
  count-sort_by p before [] = refl
  count-sort_by p before (x ∷ xs) =
      count-insert_by p before x (sort_by before xs) ∙ ground (arith, count-sort_by p before xs)
