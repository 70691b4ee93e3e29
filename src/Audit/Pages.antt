-- ===== src/Audit/Pages.antt =====
-- Pages of the log.
use accounting.Audit.Model.{Event}
use accounting.Audit.Service.{paginate_events}
use accounting.Ledger.Page.{max_page_size, offset, signed_lt, slice}
use accounting.Ledger.Page.Slices.{drop_all, signed_lt_small, slice_lem, take_min}
use accounting.Prelude.{
  Bool-cases, List, Option, ap, arith, drop, false, if◌then◌else◌, inl, inr, length, length-drop,
  ltb, ltb→lt, refl, some, sym, take, true, ℕ, ◌*◌, ◌+◌, ◌-◌, ◌<◌, ◌^◌, ◌||◌, ◌∙◌, ◌≡◌, ◌≤◌,
}
use accounting.Prelude.Word.{add, modulus, sign_bit, sub}

-- A page that starts inside the list, or at its end.
page_at : List Event → ℕ → ℕ → Option (List Event)
page_at events start size =
    slice start
      (if signed_lt (length events) (add start size) then length events else add start size) events

page_at_lem :
    (events : List Event) (start size : ℕ)
    → start ≤ length events
    → length events + size < sign_bit
    → page_at events start size ≡ some (take size (drop start events))
unfolding page_at
page_at_lem events start size h k =
    let sum : add start size ≡ start + size = omega arith in
    let test : signed_lt (length events) (add start size) ≡ ltb (length events) (start + size) =
      rw sum (signed_lt_small (length events) (start + size) (omega arith) (omega arith)) in
    elim (Bool-cases (ltb (length events) (start + size))) [
      | inl past ↦ rw (test ∙ past) (
          slice_lem start (length events) events h (omega (arith, h)) (omega arith)
          ∙ ap some (
              take_min size (length events - start) (drop start events)
                (omega (arith, length-drop start events)) (omega (arith, ltb→lt _ _ past))))
      | inr inside ↦ rw (test ∙ inside) (
          rw sum (
            slice_lem start (start + size) events (omega arith) (ground arith) (omega arith)
            ∙ ap (λ n. some (take n (drop start events))) (omega arith)))
    ]

start_inside :
    (start n : ℕ)
    → start < modulus
    → n < sign_bit
    → (signed_lt start 0 || signed_lt n start) ≡ false
    → start ≤ n
unfolding signed_lt
start_inside start n h k inside = ground arith

start_outside :
    (start n : ℕ)
    → start < sign_bit
    → n < sign_bit
    → (signed_lt start 0 || signed_lt n start) ≡ true
    → n < start
unfolding signed_lt
start_outside start n h k out = ground arith

-- `ListAll` and `List` never index out of range, however large the page is.
pub paginate_events_total :
    (events : List Event) (page size : ℕ)
    → size ≤ max_page_size
    → length events + size < sign_bit
    → (start : ℕ) × (paginate_events events page size ≡ some (take size (drop start events)))
unfolding paginate_events page_at offset
paginate_events_total events page size h k =
    elim (Bool-cases
      (signed_lt (offset page size) 0 || signed_lt (length events) (offset page size))) [
        | inl out ↦
            (length events, rw out (page_at_lem events (length events) size (omega arith) k))
        | inr inside ↦ (
          offset page size,
          rw inside (
              page_at_lem events (offset page size) size
                (start_inside (offset page size) (length events) (omega arith) (omega arith) inside)
                k),
        )
      ]

offset_exact :
    (page size : ℕ)
    → 1 ≤ page
    → page < sign_bit
    → (page - 1) * size < sign_bit
    → offset page size ≡ (page - 1) * size
unfolding offset
offset_exact page size h k small =
    let before : sub page 1 ≡ page - 1 = omega arith in rw before (omega arith)

-- A page whose offset fits in 63 bits holds exactly its part of the list: the events behind the
-- first `(page - 1) * size`, at most `size` of them, and nothing past the end.
pub paginate_events_lem :
    (events : List Event) (page size : ℕ)
    → 1 ≤ page
    → page < sign_bit
    → (page - 1) * size < sign_bit
    → length events + size < sign_bit
    → paginate_events events page size ≡ some (take size (drop ((page - 1) * size) events))
unfolding paginate_events page_at
paginate_events_lem events page size h k small few =
    let exact = offset_exact page size h k small in
    rw exact
      (elim (Bool-cases
        (signed_lt ((page - 1) * size) 0 || signed_lt (length events) ((page - 1) * size))) [
          | inl out ↦
              let past =
                start_outside ((page - 1) * size) (length events) small (omega arith) out in
              rw out (
                page_at_lem events (length events) size (omega arith) few
                ∙ ap (λ xs. some (take size xs))
                    (drop_all (length events) events (omega arith)
                      ∙ sym (drop_all ((page - 1) * size) events (omega arith))))
          | inr inside ↦ rw inside (
              page_at_lem events ((page - 1) * size) size
                (start_inside ((page - 1) * size) (length events) (omega arith) (omega arith)
                  inside)
                few)
        ])

-- A page number beyond that range can read as page 1.
wrapped_page :
    (events : List Event) → paginate_events events (2 ^ 58 + 1) 64 ≡ paginate_events events 1 64
unfolding paginate_events offset
wrapped_page events = refl
