-- ===== src/Prelude/Word.antt =====
-- `int64` as its bit pattern, a number below 2 ^ 64. Addition and subtraction wrap.
use Prim.Native.Nat.{ℕ, ◌+◌, ◌-◌, ◌%◌, ◌^◌}
use mathlib.Core.Bool.{Bool}
use accounting.Prelude.Tests.{leb, if◌then◌else◌}

abbrev pub modulus : ℕ
modulus = 2 ^ 64

abbrev pub sign_bit : ℕ
sign_bit = 2 ^ 63

abbrev pub add : ℕ → ℕ → ℕ
add a b = (a + b) % modulus

abbrev pub sub : ℕ → ℕ → ℕ
sub a b = (a + (modulus - b % modulus)) % modulus

abbrev pub is_negative : ℕ → Bool
is_negative w = leb sign_bit w

-- The absolute value of the integer that the pattern stands for.
abbrev pub magnitude : ℕ → ℕ
magnitude w = if is_negative w then modulus - w else w

-- The low 64 bits of an integer given by sign and magnitude: what `big.Int.Int64` returns.
abbrev pub of_magnitude : Bool → ℕ → ℕ
of_magnitude negative n = if negative then (modulus - n % modulus) % modulus else n % modulus
