-- ===== src/Ledger/Page/Slices.antt =====
-- Which part of the list a page holds, and where the offset leaves the range of `int`.
use accounting.Ledger.Page.{
  max_page_size, normalize_page, offset, page_from, page_of, paginate, signed_lt, signed_min, slice,
}
use accounting.Prelude.{
  Bool-cases, List, [], ap, arith, drop, false, if◌then◌else◌, inl, inr, length, length-drop, ltb,
  none, refl, some, suc, sym, take, true, zero, ℕ, ◌*◌, ◌+◌, ◌-◌, ◌<◌, ◌∙◌, ◌∷◌, ◌≡◌, ◌≤◌,
}
use accounting.Prelude.Word.{add, modulus, sign_bit, sub}

take_all : {A : Type 0} (n : ℕ) (xs : List A) → length xs ≤ n → take n xs ≡ xs
take_all zero [] h = refl
take_all zero (x ∷ xs) h = absurd (omega arith)
take_all (suc n) [] h = refl
take_all (suc n) (x ∷ xs) h = ap (◌∷◌ x) (take_all n xs (omega arith))

pub drop_all : {A : Type 0} (n : ℕ) (xs : List A) → length xs ≤ n → drop n xs ≡ []
drop_all zero [] h = refl
drop_all zero (x ∷ xs) h = absurd (omega arith)
drop_all (suc n) [] h = refl
drop_all (suc n) (x ∷ xs) h = drop_all n xs (omega arith)

pub take_nil : {A : Type 0} (n : ℕ) → take {A = A} n [] ≡ []
take_nil zero = refl
take_nil (suc n) = refl

-- Cutting off behind the end changes nothing.
pub take_min : {A : Type 0} (n m : ℕ) (xs : List A) → length xs ≤ m → m < n → take m xs ≡ take n xs
take_min n m xs h k = take_all m xs h ∙ sym (take_all n xs (omega arith))

-- The bounds of a normalised page and page size.
pub normalize_page_bounds :
    (page size : ℕ)
    → page < modulus
    → size < modulus
    → let (p, n) = normalize_page page size in
      (1 ≤ p) × (p < sign_bit) × (1 ≤ n) × (n ≤ max_page_size)
unfolding normalize_page
normalize_page_bounds page size hp hs = ground arith

pub signed_lt_small : (a b : ℕ) → a < sign_bit → b < sign_bit → signed_lt a b ≡ ltb a b
unfolding signed_lt
signed_lt_small a b ha hb = ground arith

pub slice_lem :
    {A : Type 0} (start stop : ℕ) (xs : List A)
    → start ≤ stop
    → stop ≤ length xs
    → length xs < sign_bit
    → slice start stop xs ≡ some (take (stop - start) (drop start xs))
unfolding slice
slice_lem start stop xs h k short =
    ground (arith, signed_lt_small stop start, signed_lt_small (length xs) stop)

signed_min_small :
    (a b : ℕ) → a < sign_bit → b < sign_bit → signed_min a b ≡ (if ltb b a then b else a)
unfolding signed_min
signed_min_small a b ha hb = ground arith

signed_lt_negative : (a b : ℕ) → sign_bit ≤ a → a < modulus → b < sign_bit → signed_lt a b ≡ true
unfolding signed_lt
signed_lt_negative a b ha hm hb = ground arith

slice_negative :
    {A : Type 0} (start stop : ℕ) (xs : List A) → sign_bit ≤ start → slice start stop xs ≡ none
unfolding slice
slice_negative start stop xs h = ground arith

-- A page whose end lies in the range of `int` holds the elements from its offset on.
module _ {A : Type 0} (start p size : ℕ) (xs : List A) where
  pub page_from_lem :
      start + size < sign_bit
      → length xs < sign_bit
      → page_from start p size xs ≡ some (page_of p size xs (take size (drop start xs)))
  unfolding page_from
  page_from_lem fits short = elim (Bool-cases (ltb start (length xs))) [
    | inr past ↦
        let e : signed_lt start (length xs) ≡ false =
          signed_lt_small start (length xs) (omega arith) short ∙ past in
        rw (drop_all start xs (ground arith), take_nil size, e)
    | inl inside ↦
        let e : signed_lt start (length xs) ≡ true =
          signed_lt_small start (length xs) (omega arith) short ∙ inside in
        let a : add start size ≡ start + size = omega arith in
        let m = signed_min_small (start + size) (length xs) fits short in
        elim (Bool-cases (ltb (length xs) (start + size))) [
          | inl long ↦ rw (
            e,
            a,
            m,
            long,
            slice_lem start (length xs) xs (ground arith) (omega arith) short,
            take_min size (length xs - start) (drop start xs) (omega (arith, length-drop start xs))
                (ground arith),
          )
          | inr whole ↦
              let f : start + size - start ≡ size = omega arith in
              rw (
                e,
                a,
                m,
                whole,
                slice_lem start (start + size) xs (omega arith) (ground arith) short,
                f,
              )
        ]
  ]

  -- An offset that has wrapped below zero makes the slice expression panic.
  pub page_from_panic :
      sign_bit ≤ start → start < modulus → length xs < sign_bit → page_from start p size xs ≡ none
  unfolding page_from
  page_from_panic neg word short =
      let e : signed_lt start (length xs) ≡ true =
        signed_lt_negative start (length xs) neg word short in
      let f : slice start (signed_min (add start size) (length xs)) xs ≡ none =
        slice_negative start _ xs neg in
      rw (e, f)

offset_lem : (p n : ℕ) → 1 ≤ p → p < sign_bit → p * n < sign_bit → offset p n ≡ (p - 1) * n
unfolding offset
offset_lem zero n h k fits = absurd (omega arith)
offset_lem (suc p) n h k fits =
    let e : sub (suc p) 1 ≡ p = omega arith in
    let f : suc p - 1 ≡ p = omega arith in rw (e, f) (omega arith)

end_lem : (p n : ℕ) → 1 ≤ p → (p - 1) * n + n ≡ p * n
end_lem zero n h = absurd (omega arith)
end_lem (suc p) n h = let f : suc p - 1 ≡ p = omega arith in rw f (omega arith)

-- The page and page size that a request asks for, as `normalizePage` bounds them.
module _ {A : Type 0} (xs : List A) (page size : ℕ) {p n : ℕ} where
  bounds :
      normalize_page page size ≡ (p, n)
      → page < modulus
      → size < modulus
      → (1 ≤ p) × (p < sign_bit) × (1 ≤ n) × (n ≤ max_page_size)
  bounds asked hp hs = rw asked at (normalize_page_bounds page size hp hs)

  -- As long as the page ends within the range of `int`, it holds the items from
  -- `(p - 1) * n` on, at most `n` of them, with the length of the whole list as the total.
  pub paginate_lem :
      normalize_page page size ≡ (p, n)
      → page < modulus
      → size < modulus
      → length xs < sign_bit
      → p * n < sign_bit
      → paginate xs page size ≡ some (page_of p n xs (take n (drop ((p - 1) * n) xs)))
  unfolding paginate
  paginate_lem asked hp hs short fits =
      let b = bounds asked hp hs in
      rw (asked, offset_lem p n b.0 b.1 fits)
        (page_from_lem ((p - 1) * n) p n xs (rw (end_lem p n b.0) fits) short)

  -- A request for a page whose offset wraps to a negative `int` panics instead of answering.
  pub paginate_overflow :
      normalize_page page size ≡ (p, n)
      → length xs < sign_bit
      → sign_bit ≤ offset p n
      → paginate xs page size ≡ none
  unfolding paginate
  paginate_overflow asked short wraps =
      rw asked (page_from_panic (offset p n) p n xs wraps (unfold offset in omega arith) short)
