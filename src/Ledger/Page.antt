-- ===== src/Ledger/Page.antt =====
-- backend/internal/ledger/pagination.go: one bounded page of a list. `int` is a 64-bit word, so the
-- offset wraps; `none` is the run-time panic of a slice expression out of range.
pub mod Slices
pub mod Cover
use mathlib.Core.Option
use accounting.Prelude.{
  Bool, List, Option, [], drop, if◌then◌else◌, length, ltb, map, none, not, some, take, ℕ, ◌%◌, ◌*◌,
  ◌+◌, ◌-◌, ◌||◌,
}
use accounting.Prelude.Word.{add, is_negative, modulus, sign_bit, sub}

abbrev pub default_page_size : ℕ
default_page_size = 50

abbrev pub max_page_size : ℕ
max_page_size = 100

pub record Page (A : Type 0) : Type 0 where
  pub items : List A
  pub page : ℕ
  pub page_size : ℕ
  pub total : ℕ

-- `a < b` on `int`
unfoldable pub signed_lt : ℕ → ℕ → Bool
signed_lt a b = ltb ((a + sign_bit) % modulus) ((b + sign_bit) % modulus)

unfoldable pub normalize_page : ℕ → ℕ → ℕ × ℕ
unfolding signed_lt
normalize_page page page_size =
    let page' = if signed_lt page 1 then 1 else page in
    let size' = if signed_lt page_size 1 then default_page_size else page_size in
    (page', if signed_lt max_page_size size' then max_page_size else size')

-- `(page - 1) * pageSize`
unfoldable pub offset : ℕ → ℕ → ℕ
offset page size = (sub page 1 * size) % modulus

unfoldable pub signed_min : ℕ → ℕ → ℕ
unfolding signed_lt
signed_min a b = if signed_lt b a then b else a

module _ {A : Type 0} where
  -- `items[start:stop]`
  unfoldable pub slice : ℕ → ℕ → List A → Option (List A)
  unfolding signed_lt
  slice start stop items =
      if is_negative start || signed_lt stop start || signed_lt (length items) stop
      then none
      else some (take (stop - start) (drop start items))

  abbrev pub page_of : ℕ → ℕ → List A → List A → Page A
  page_of p size xs part = record { items = part; page = p; page_size = size; total = length xs }

  -- The rest of `paginate` once the offset is known.
  unfoldable pub page_from : ℕ → ℕ → ℕ → List A → Option (Page A)
  page_from start p size xs =
      if not (signed_lt start (length xs))
      then some (page_of p size xs [])
      else Option.map (page_of p size xs) (slice start (signed_min (add start size) (length xs)) xs)

  unfoldable pub paginate : List A → ℕ → ℕ → Option (Page A)
  paginate xs page page_size =
      let (p, size) = normalize_page page page_size in page_from (offset p size) p size xs
