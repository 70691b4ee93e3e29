-- ===== src/Tests/Pages.antt =====
-- Pages of five numbers.
use accounting.Ledger.Page.{
  normalize_page, offset, page_from, page_of, paginate, signed_lt, signed_min, slice,
}
use accounting.Ledger.Page.Cover.{pages, pages-take}
use accounting.Ledger.Page.Slices.{paginate_lem, paginate_overflow}
use accounting.Prelude.{
  List, [], arith, drop, none, refl, some, take, ℕ, ◌*◌, ◌+◌, ◌-◌, ◌^◌, ◌∷◌, ◌≡◌, ◌≤◌,
}
use accounting.Prelude.Word.{sign_bit}

abbrev five : List ℕ
five = 1 ∷ 2 ∷ 3 ∷ 4 ∷ 5 ∷ []

asked_second : normalize_page 2 2 ≡ (2, 2)
unfolding normalize_page signed_lt
asked_second = refl

second_page : paginate five 2 2 ≡ some (page_of 2 2 five (3 ∷ 4 ∷ []))
unfolding paginate normalize_page page_from offset slice signed_lt signed_min
second_page = refl

paginate_lem_example :
    paginate five 2 2 ≡ some (page_of 2 2 five (take 2 (drop ((2 - 1) * 2) five)))
paginate_lem_example =
    paginate_lem five 2 2 asked_second (omega arith) (omega arith) (omega arith) (omega arith)

pages-take_example : pages 2 2 five ≡ some (take (2 * 2) five)
pages-take_example = pages-take 2 2 five (omega arith) (omega arith) (omega arith) (omega arith)

abbrev far_page : ℕ
far_page = 2 ^ 62 + 1

asked_far : normalize_page far_page 2 ≡ (far_page, 2)
unfolding normalize_page signed_lt
asked_far = refl

far_offset : sign_bit ≤ offset far_page 2
unfolding offset
far_offset = omega arith

paginate_overflow_example : paginate five far_page 2 ≡ none
paginate_overflow_example = paginate_overflow five far_page 2 asked_far (omega arith) far_offset
