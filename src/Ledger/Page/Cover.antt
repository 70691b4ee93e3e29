-- ===== src/Ledger/Page/Cover.antt =====
-- Consecutive pages cover the list.
use mathlib.Core.Option
use accounting.Ledger.Page.{Page, max_page_size, normalize_page, paginate}
use accounting.Ledger.Page.Slices.{paginate_lem}
use accounting.Prelude.{
  List, Option, [], ap, arith, drop, length, none, some, suc, take, zero, ℕ, ◌*◌, ◌++◌, ◌+◌, ◌-◌,
  ◌<◌, ◌∷◌, ◌≡◌, ◌≤◌,
}
use accounting.Prelude.Word.{sign_bit}

-- The items of the first `k` pages of `n` items each, as a client collects them; `none` if a
-- request panics.
abbrev pub pages : {A : Type 0} → ℕ → ℕ → List A → Option (List A)
pages zero n xs = some []
pages (suc k) n xs = elim (pages k n xs) [
  | none ↦ none
  | some before ↦ Option.map (λ (p : Page _). before ++ p.items) (paginate xs (suc k) n)
]

take-add : {A : Type 0} (m n : ℕ) (xs : List A) → take m xs ++ take n (drop m xs) ≡ take (m + n) xs
take-add zero n xs = let e : 0 + n ≡ n = omega arith in rw e
take-add (suc m) zero [] = let e : suc m + 0 ≡ suc m = omega arith in rw e
take-add (suc m) (suc n) [] = let e : suc m + suc n ≡ suc (m + suc n) = omega arith in rw e
take-add (suc m) n (x ∷ xs) =
    let e : suc m + n ≡ suc (m + n) = omega arith in rw e (ap (◌∷◌ x) (take-add m n xs))

normalize_page_id :
    (p n : ℕ) → 1 ≤ p → p < sign_bit → 1 ≤ n → n ≤ max_page_size → normalize_page p n ≡ (p, n)
unfolding normalize_page
normalize_page_id p n a b c d = ground arith

page_small : (k n : ℕ) → 1 ≤ n → suc k * n < sign_bit → suc k < sign_bit
page_small k (suc n) h fits = grind arith
page_small k zero h fits = absurd (omega arith)

-- The first `k` pages of a permitted page size hold the first `k * n` items, each once and in the
-- order of the list, as long as `k * n` is in the range of `int`.
pub pages-take :
    {A : Type 0} (k n : ℕ) (xs : List A)
    → 1 ≤ n
    → n ≤ max_page_size
    → length xs < sign_bit
    → k * n < sign_bit
    → pages k n xs ≡ some (take (k * n) xs)
pages-take zero n xs lo hi short fits = let e : 0 * n ≡ 0 = omega arith in rw e
pages-take (suc k) n xs lo hi short fits =
    let ih = pages-take k n xs lo hi short (omega arith) in
    let e : suc k - 1 ≡ k = omega arith in
    let small : suc k < sign_bit = page_small k n lo fits in
    let asked = normalize_page_id (suc k) n (omega arith) small lo hi in
    let here = paginate_lem xs (suc k) n asked (omega arith) (omega arith) short fits in
    rw (ih, here, e, take-add (k * n) n xs) (ap (λ m. some (take m xs)) (omega arith))
