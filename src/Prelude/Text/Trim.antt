-- ===== src/Prelude/Text/Trim.antt =====
-- Trimming a text twice is trimming it once.
use accounting.Prelude.{Bool, Bool-cases, [], arith, false, inl, inr, not, refl, true, ◌∷◌, ◌≡◌}
use accounting.Prelude.Text.{Text, is_space, trim_left, trim_right, trim_space}

trim_right_twice : (s : Text) → trim_right (trim_right s) ≡ trim_right s
unfolding trim_right
trim_right_twice [] = refl
trim_right_twice (c ∷ s) = ground (arith, trim_right_twice s)

not-true : (b : Bool) → not b ≡ true → b ≡ false
not-true true h = absurd (cc)
not-true false h = refl

-- What is left of a trimmed text does not begin with a space.
abbrev begins : Text → Bool
begins [] = true
begins (c ∷ s) = not (is_space c)

begins-trim_left : (s : Text) → begins (trim_left s) ≡ true
unfolding trim_left
begins-trim_left [] = refl
begins-trim_left (c ∷ s) = elim (Bool-cases (is_space c)) [
  | inl space ↦ rw space (begins-trim_left s)
  | inr plain ↦ rw plain (rw plain)
]

begins-trim_right : (s : Text) → begins s ≡ true → begins (trim_right s) ≡ true
unfolding trim_right
begins-trim_right [] h = refl
begins-trim_right (c ∷ s) h = let p : is_space c ≡ false = not-true _ h in rw p (rw p)

trim_left_id : (s : Text) → begins s ≡ true → trim_left s ≡ s
unfolding trim_left
trim_left_id [] h = refl
trim_left_id (c ∷ s) h = let p : is_space c ≡ false = not-true _ h in rw p

pub trim_space_twice : (s : Text) → trim_space (trim_space s) ≡ trim_space s
unfolding trim_space
trim_space_twice s =
    rw (trim_left_id (trim_right (trim_left s)) (begins-trim_right _ (begins-trim_left s)))
      (trim_right_twice (trim_left s))
