-- ===== src/Prelude/Lists.antt =====
-- Lists measured by native numbers, and the insertion sort that stands for `slices.SortFunc`.
use Prim.Native.Nat.{ℕ, zero, suc, ◌+◌, ◌-◌, min}
use mathlib.Core.Path.{◌≡◌, refl, ap, ◌∙◌}
use mathlib.Core.Bool.{Bool}
use mathlib.Core.List.{List, [], map, ◌∷◌, ◌++◌}
use native.Mathlib.Omega.{arith}
use accounting.Prelude.Tests.{if◌then◌else◌, Bool-cases}
use mathlib.Core.Logic.{inl, inr}

module _ {ℓ} {A : Type ℓ} where
  abbrev pub length : List A → ℕ
  length [] = 0
  length (x ∷ xs) = suc (length xs)

  abbrev pub take : ℕ → List A → List A
  take zero xs = []
  take (suc n) [] = []
  take (suc n) (x ∷ xs) = x ∷ take n xs

  abbrev pub drop : ℕ → List A → List A
  drop zero xs = xs
  drop (suc n) [] = []
  drop (suc n) (x ∷ xs) = drop n xs

  pub length-append : (xs ys : List A) → length (xs ++ ys) ≡ length xs + length ys
  length-append [] ys = omega arith
  length-append (x ∷ xs) ys = omega (arith, length-append xs ys)

  pub length-take : (n : ℕ) (xs : List A) → length (take n xs) ≡ min n (length xs)
  length-take zero xs = omega arith
  length-take (suc n) [] = omega arith
  length-take (suc n) (x ∷ xs) = omega (arith, length-take n xs)

  pub length-drop : (n : ℕ) (xs : List A) → length (drop n xs) ≡ length xs - n
  length-drop zero xs = omega arith
  length-drop (suc n) [] = omega arith
  length-drop (suc n) (x ∷ xs) = omega (arith, length-drop n xs)

  abbrev pub All {κ} : (A → Type κ) → List A → Type κ
  All P [] = Unit
  All P (x ∷ xs) = P x × All P xs

  pub All-imp {κ μ} :
      (P : A → Type κ) (Q : A → Type μ) (xs : List A) → ((x : A) → P x → Q x) → All P xs → All Q xs
  All-imp P Q [] f h = tt
  All-imp P Q (x ∷ xs) f h = (f x h.0, All-imp P Q xs f h.1)

  pub All-append {κ} : (P : A → Type κ) (xs ys : List A) → All P xs → All P ys → All P (xs ++ ys)
  All-append P [] ys h k = k
  All-append P (x ∷ xs) ys h k = (h.0, All-append P xs ys h.1 k)

  -- `for x in xs { if p(x) { out = append(out, x) } }`
  abbrev pub keep : (A → Bool) → List A → List A
  keep p [] = []
  keep p (x ∷ xs) = let rest = keep p xs in if p x then x ∷ rest else rest

  -- Where `slices.SortFunc` promises no order (equal elements), this one keeps the order; the
  -- standard library itself sorts up to twelve elements by insertion.
  unfoldable pub insert_by : (A → A → Bool) → A → List A → List A
  insert_by before x [] = x ∷ []
  insert_by before x (y ∷ ys) =
      let rest = insert_by before x ys in if before y x then y ∷ rest else x ∷ y ∷ ys

  unfoldable pub sort_by : (A → A → Bool) → List A → List A
  unfolding insert_by
  sort_by before [] = []
  sort_by before (x ∷ xs) = insert_by before x (sort_by before xs)

  insert_by-All {κ} :
      (P : A → Type κ) (before : A → A → Bool) (x : A) (xs : List A)
      → P x
      → All P xs
      → All P (insert_by before x xs)
  unfolding insert_by
  insert_by-All P before x [] p h = (p, tt)
  insert_by-All P before x (y ∷ ys) p h = elim (Bool-cases (before y x)) [
    | inl t ↦ rw t (h.0, insert_by-All P before x ys p h.1)
    | inr f ↦ rw f (p, h)
  ]

  pub sort_by-All {κ} :
      (P : A → Type κ) (before : A → A → Bool) (xs : List A) → All P xs → All P (sort_by before xs)
  unfolding sort_by
  sort_by-All P before [] h = tt
  sort_by-All P before (x ∷ xs) h = insert_by-All P before x _ h.0 (sort_by-All P before xs h.1)

  length-insert_by :
      (before : A → A → Bool) (x : A) (xs : List A)
      → length (insert_by before x xs) ≡ suc (length xs)
  unfolding insert_by
  length-insert_by before x [] = refl
  length-insert_by before x (y ∷ ys) = ground (arith, length-insert_by before x ys)

  pub length-sort_by :
      (before : A → A → Bool) (xs : List A) → length (sort_by before xs) ≡ length xs
  unfolding sort_by
  length-sort_by before [] = refl
  length-sort_by before (x ∷ xs) =
      length-insert_by before x (sort_by before xs) ∙ ap suc (length-sort_by before xs)

pub length-map {ℓ κ} :
    {A : Type ℓ} {B : Type κ} (f : A → B) (xs : List A) → length (map f xs) ≡ length xs
length-map f [] = refl
length-map f (x ∷ xs) = ap suc (length-map f xs)
