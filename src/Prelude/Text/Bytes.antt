-- ===== src/Prelude/Text/Bytes.antt =====
-- Prefixes and substrings, and texts measured in the bytes of UTF-8: `len` of a string.
use Prim.Native.Nat.{ℕ, ◌%◌, ◌+◌, ◌-◌, ◌/◌, ◌≤◌}
use accounting.Prelude.Lists.{length, length-map, length-take, take}
use accounting.Prelude.Tests.{Bool-cases, if◌then◌else◌, leb, leb→le, ltb, ◌==◌}
use mathlib.Core.Logic.{inl, inr}
use native.Mathlib.Omega.{arith}
use accounting.Prelude.Text.{Text}
use mathlib.Core.Bool.{Bool, false, true, ◌&&◌, ◌||◌}
use mathlib.Core.List.{List, [], map, ◌∷◌}

-- `strings.HasPrefix`
unfoldable pub has_prefix : Text → Text → Bool
has_prefix [] s = true
has_prefix (c ∷ p) [] = false
has_prefix (c ∷ p) (d ∷ s) = c == d && has_prefix p s

-- `strings.Contains`
unfoldable pub has_substring : Text → Text → Bool
unfolding has_prefix
has_substring [] p = has_prefix p []
has_substring (c ∷ s) p = has_prefix p (c ∷ s) || has_substring s p

-- One past the last code point, and a byte of a string that is not part of a code point.
abbrev pub max_rune : ℕ
max_rune = 0x110000

abbrev invalid_byte : ℕ → ℕ
invalid_byte b = max_rune + b

abbrev rune_length : ℕ → ℕ
rune_length c =
    if ltb c 0x80
    then 1
    else if ltb c 0x800
    then 2
    else if ltb c 0x10000
    then 3
    else if ltb c max_rune
    then 4
    else 1

-- The six bits of a code point behind the lowest ones, as a byte that continues another.
abbrev continuation : ℕ → ℕ
continuation c = 0x80 + c % 0x40

-- The bytes of a code point in UTF-8.
abbrev utf8 : ℕ → List ℕ
utf8 c =
    if ltb c 0x80
    then c ∷ []
    else if ltb c 0x800
    then (0xc0 + c / 0x40) ∷ continuation c ∷ []
    else if ltb c 0x10000
    then (0xe0 + c / 0x1000) ∷ continuation (c / 0x40) ∷ continuation c ∷ []
    else (0xf0 + c / 0x40000)
      ∷ continuation (c / 0x1000)
      ∷ continuation (c / 0x40)
      ∷ continuation c
      ∷ []

unfoldable pub byte_length : Text → ℕ
byte_length [] = 0
byte_length (c ∷ s) = rune_length c + byte_length s

-- The first `n` bytes of a rune that is cut.
stray : ℕ → ℕ → Text
stray n c = map invalid_byte (take n (utf8 c))

-- `s[:n]`: the bytes of a rune that is cut stay, and are no code point any more.
unfoldable pub cut_bytes : ℕ → Text → Text
unfolding stray
cut_bytes n [] = []
cut_bytes n (c ∷ s) =
    let rest = cut_bytes (n - rune_length c) s in
    if leb (rune_length c) n then c ∷ rest else stray n c

length-stray : (n c : ℕ) → length (stray n c) ≤ n
unfolding stray
length-stray n c = omega (arith, length-map invalid_byte (take n (utf8 c)), length-take n (utf8 c))

rune_length_pos : (c : ℕ) → 1 ≤ rune_length c
rune_length_pos c = ground arith

pub length-le-byte_length : (s : Text) → length s ≤ byte_length s
unfolding byte_length
length-le-byte_length [] = omega arith
length-le-byte_length (c ∷ s) = omega (arith, rune_length_pos c, length-le-byte_length s)

pub length-cut_bytes : (n : ℕ) (s : Text) → length (cut_bytes n s) ≤ n
unfolding cut_bytes
length-cut_bytes n [] = omega arith
length-cut_bytes n (c ∷ s) = elim (Bool-cases (leb (rune_length c) n)) [
  | inl fits ↦ rw fits (
      omega (
        arith,
        leb→le (rune_length c) n fits,
        rune_length_pos c,
        length-cut_bytes (n - rune_length c) s,
      ))
  | inr cut ↦ rw cut (length-stray n c)
]
