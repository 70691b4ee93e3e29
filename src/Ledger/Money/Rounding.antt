-- ===== src/Ledger/Money/Rounding.antt =====
-- `roundRatToInt64` gives the nearest integer; a tie goes away from zero.
use accounting.Ledger.Money.{round_magnitude, round_rat_to_int64}
use accounting.Prelude.{Bool, arith, div-add-mod, mod-lt, ℕ, ◌*◌, ◌+◌, ◌<◌, ◌≡◌, ◌≤◌}
use accounting.Prelude.Word.{of_magnitude}

-- `q` is nearest to `n / d`: twice the distance is at most `d`.
abbrev pub IsNearest : ℕ → ℕ → ℕ → Type 0
IsNearest n d q = (2 * n ≤ 2 * (q * d) + d) × (2 * (q * d) ≤ 2 * n + d)

-- The rounded quotient of two magnitudes is an integer nearest to it.
pub round_magnitude-IsNearest : (n d : ℕ) → 0 < d → IsNearest n d (round_magnitude n d)
unfolding round_magnitude
round_magnitude-IsNearest n d h = grind (arith, div-add-mod n d, mod-lt n h)

-- `q` is `n / d + 1/2` rounded down: the nearest integer, and the greater of two that are as near.
abbrev pub IsRounded : ℕ → ℕ → ℕ → Type 0
IsRounded n d q = (2 * (q * d) ≤ 2 * n + d) × (2 * n + d < 2 * (q * d) + 2 * d)

pub round_magnitude-IsRounded : (n d : ℕ) → 0 < d → IsRounded n d (round_magnitude n d)
unfolding round_magnitude
round_magnitude-IsRounded n d h = grind (arith, div-add-mod n d, mod-lt n h)

tie : (k : ℕ) → round_magnitude (2 * k + 1) 2 ≡ k + 1
unfolding round_magnitude
tie k = ground arith

-- A quotient half-way between two integers goes to the one farther from zero, for both signs: the
-- result for `k + 1/2` is `k + 1` and the one for `-(k + 1/2)` is `-(k + 1)`.
pub round_tie :
    (negative : Bool) (k : ℕ)
    → round_rat_to_int64 (record { negative = negative; num = 2 * k + 1; den = 2 })
      ≡ of_magnitude negative (k + 1)
unfolding round_rat_to_int64
round_tie negative k = let e : round_magnitude (2 * k + 1) 2 ≡ k + 1 = tie k in rw e
