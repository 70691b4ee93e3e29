-- ===== src/Prelude/Text.antt =====
-- A Go string as the list of its code points, with the functions of `strings` that the program
-- calls. A byte `b` that is part of no code point stands as 0x110000 + b. `len([]rune(s))` is the length of the list.
pub mod Trim
pub mod Bytes
use Prim.Native.Char.{code}
use Prim.Native.Nat.{Ordering, compare, ℕ, ◌-◌}
use Prim.Native.String.{String}
use accounting.Prelude.{◌≢◌}
use accounting.Prelude.Tests.{if◌then◌else◌, leb, ltb, ◌==◌}
use mathlib.Core.Bool.{Bool, false, true, ◌&&◌, ◌||◌}
use mathlib.Core.List.{List, [], map, ◌∷◌}
use mathlib.Core.Logic.{◌↔◌}
use mathlib.Core.Path.{refl, ◌≡◌}
use native.Mathlib.Omega.{arith}

abbrev pub Text : Type 0
Text = List ℕ

abbrev pub text : String → Text
text String.[] = []
text (String.◌∷◌ c s) = code c ∷ text s

abbrev pub is_empty : Text → Bool
is_empty [] = true
is_empty (_ ∷ _) = false

unfoldable pub text_eq : Text → Text → Bool
text_eq [] [] = true
text_eq [] (b ∷ t) = false
text_eq (a ∷ s) [] = false
text_eq (a ∷ s) (b ∷ t) = a == b && text_eq s t

text_eq_sound : (s t : Text) → text_eq s t ≡ true → s ≡ t
unfolding text_eq
text_eq_sound [] [] h = refl
text_eq_sound [] (b ∷ t) h = absurd (cc)
text_eq_sound (a ∷ s) [] h = absurd (cc)
text_eq_sound (a ∷ s) (b ∷ t) h = ground (arith, text_eq_sound s t)

pub text_eq_refl : (s : Text) → text_eq s s ≡ true
unfolding text_eq
text_eq_refl [] = refl
text_eq_refl (a ∷ s) = ground (arith, text_eq_refl s)

pub text_eq_iff : (s t : Text) → (text_eq s t ≡ true) ↔ (s ≡ t)
text_eq_iff s t = (text_eq_sound s t, λ e. rw (← e) (text_eq_refl s))

pub text_eq-false : (s t : Text) → s ≢ t → text_eq s t ≡ false
text_eq-false s t n = ground (arith, text_eq_iff s t, n)

-- `cmpString(left, right) <= 0`: the order of the bytes of valid UTF-8 is that of the code
-- points.
unfoldable pub text_leb : Text → Text → Bool
text_leb [] t = true
text_leb (a ∷ s) [] = false
text_leb (a ∷ s) (b ∷ t) =
    let rest = text_leb s t in
    elim (compare a b) [ Ordering.lt ↦ true | Ordering.eq ↦ rest | Ordering.gt ↦ false ]

-- `unicode.IsSpace`
abbrev pub is_space : ℕ → Bool
is_space c =
    (leb 9 c && leb c 13)
    || c == 32
    || c == 0x85
    || c == 0xa0
    || c == 0x1680
    || (leb 0x2000 c && leb c 0x200a)
    || c == 0x2028
    || c == 0x2029
    || c == 0x202f
    || c == 0x205f
    || c == 0x3000

unfoldable pub trim_left : Text → Text
trim_left [] = []
trim_left (c ∷ s) = let rest = trim_left s in if is_space c then rest else c ∷ s

-- Spaces at the end go: a suffix of spaces has an empty rest.
unfoldable pub trim_right : Text → Text
trim_right [] = []
trim_right (c ∷ s) = let rest = trim_right s in if is_space c && is_empty rest then [] else c ∷ rest

-- `strings.TrimSpace`
unfoldable pub trim_space : Text → Text
trim_space s = trim_right (trim_left s)

-- `unicode.ToUpper` on ASCII, Latin-1, and the two letters from beyond with an ASCII capital.
abbrev pub upper_rune : ℕ → ℕ
upper_rune c =
    if leb 97 c && leb c 122
    then c - 32
    else if leb 0xe0 c && leb c 0xfe && (ltb c 0xf7 || ltb 0xf7 c)
    then c - 32
    else if c == 0x131
    then 73
    else if c == 0x17f
    then 83
    else c

-- `strings.ToUpper`
unfoldable pub to_upper : Text → Text
to_upper s = map upper_rune s
