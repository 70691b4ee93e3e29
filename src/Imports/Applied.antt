-- ===== src/Imports/Applied.antt =====
-- A batch is staged once and applied once.
use accounting.Imports.Model.{
  Batch, BatchStatus, MarkAppliedRequest, applied, is_applied, other_batch, preview,
}
use accounting.Imports.Service.{apply_batch, mark_applied, marked_batch, may_mark}
use accounting.Imports.Store.{
  ImportStore, batch_of, hash_key, no_batch, save_batch, save_batch_if_absent,
}
use accounting.Ledger.Store.Books.{book}
use accounting.Prelude.{
  Bool, Bool-cases, Holds, Option-cases, ap, arith, false, if◌then◌else◌, inl, inr, or_default,
  refl, subst, sym, true, ℕ, ◌∙◌, ◌≡◌,
}
use accounting.Prelude.Result.{Result, Result-cases, err, invalid_input, ok}
use accounting.Prelude.Text.{Text, text_eq, text_eq_iff, text_eq_refl, trim_space}

-- Batches stand under their ids.
abbrev pub IsKeyed : ImportStore → Type 0
IsKeyed s = (id : Text) → Holds (λ b. b.id ≡ id) (s.batches id)

-- A second upload of the same file by the same user is answered the batch of the first and changes
-- nothing, whatever else it holds.
pub save_batch_if_absent_twice :
    (b c : Batch) (s : ImportStore)
    → hash_key c ≡ hash_key b
    → (a : Batch × Bool) × ((save_batch_if_absent b s).0 ≡ ok a)
      × (save_batch_if_absent c (save_batch_if_absent b s).1
          ≡ (ok (a.0, false), (save_batch_if_absent b s).1))
unfolding save_batch_if_absent
save_batch_if_absent_twice b c s same = elim (Option-cases (s.by_hash (hash_key b))) [
  | inl new ↦ (
    (b, true),
    ground arith,
    ground (arith, text_eq_iff (hash_key b) (hash_key c), text_eq_refl b.id),
  )
  | inr (id, old) ↦ ((or_default (s.batches id) no_batch, false), ground arith, ground arith)
]

-- What the store answers for a batch that has been saved under its id.
saved-batch_of :
    (b : Batch) (user_id : Text) (s : ImportStore)
    → b.user_id ≡ user_id
    → batch_of user_id b.id (save_batch b s).1 ≡ ok b
unfolding batch_of save_batch
saved-batch_of b user_id s mine = ground (arith, text_eq_refl b.id, text_eq_refl user_id)

found_batch :
    (user_id id : Text) (b : Batch) (s : ImportStore)
    → IsKeyed s
    → batch_of user_id id s ≡ ok b
    → (b.id ≡ id) × (b.user_id ≡ user_id)
unfolding batch_of
found_batch user_id id b s keyed h = elim (Option-cases (s.batches id)) [
  | inl gone ↦ absurd (ground arith)
  | inr (c, there) ↦
      let same : c ≡ b = ground arith in
      (
        ap (λ x. x.id) (sym same) ∙ subst (Holds (λ x. x.id ≡ id)) there (keyed id),
        ground (arith, text_eq_iff c.user_id user_id),
      )
]

is_applied-eq : (t : BatchStatus) → is_applied t ≡ true → t ≡ applied
is_applied-eq applied h = refl
is_applied-eq preview h = absurd (cc)
is_applied-eq (other_batch t) h = absurd (cc)

answered : (x b : Batch) (s : ImportStore) → (save_batch x s).0 ≡ ok b → x ≡ b
unfolding save_batch
answered x b s h = cc

-- What a success leaves in the store.
applied_batch :
    (q : MarkAppliedRequest) (now : ℕ) (b : Batch) (s : ImportStore)
    → IsKeyed s
    → (mark_applied q now s).0 ≡ ok b
    → (b.status ≡ applied)
      × (b.applied_book_id ≡ trim_space q.book_id)
      × (batch_of q.user_id (trim_space q.batch_id) (mark_applied q now s).1 ≡ ok b)
unfolding mark_applied apply_batch
applied_batch q now b s keyed h = elim (Bool-cases (may_mark q)) [
  | inr bad ↦ absurd (ground arith)
  | inl may ↦ elim (Result-cases (batch_of q.user_id (trim_space q.batch_id) s)) [
    | inr (e, bad) ↦ absurd (ground arith)
    | inl (old, found) ↦
        let (id, mine) = found_batch q.user_id (trim_space q.batch_id) old s keyed found in
        elim (Bool-cases (is_applied old.status)) [
          | inl done ↦
              let same : old ≡ b =
                ground (arith, text_eq_iff old.applied_book_id (trim_space q.book_id)) in
              (
                ap (λ x. x.status) (sym same) ∙ is_applied-eq old.status done,
                ground (arith, text_eq_iff old.applied_book_id (trim_space q.book_id)),
                ground (arith, text_eq_iff old.applied_book_id (trim_space q.book_id)),
              )
          | inr staged ↦
              let marked = marked_batch q now old in
              let run : mark_applied q now s ≡ save_batch marked s = ground arith in
              let same : marked ≡ b = answered marked b s (ap (λ p. p.0) (sym run) ∙ h) in
              (
                ap (λ x. x.status) (sym same),
                ap (λ x. x.applied_book_id) (sym same),
                ap (λ p. batch_of q.user_id (trim_space q.batch_id) p.1) run
                    ∙ ap (λ i. batch_of q.user_id i (save_batch marked s).1) (sym id)
                    ∙ saved-batch_of marked q.user_id s mine
                    ∙ ap ok same,
              )
        ]
  ]
]

module _ (q r : MarkAppliedRequest) (now later : ℕ) where
  -- The answer to a request for a batch that has been applied to a book.
  abbrev pub again : Batch → ImportStore → Result Batch × ImportStore
  again b s =
      if text_eq b.applied_book_id (trim_space r.book_id) then (ok b, s) else (err invalid_input, s)

  mark_applied-again :
      (b : Batch) (s : ImportStore)
      → may_mark r ≡ true
      → batch_of r.user_id (trim_space r.batch_id) s ≡ ok b
      → is_applied b.status ≡ true
      → mark_applied r later s ≡ again b s
  unfolding mark_applied apply_batch
  mark_applied-again b s may found done = ground arith

  -- `MarkApplied` that has succeeded is final: the batch is applied to the book of that request, and a
  -- later valid request on it by the same user, one with at least one entry and a batch and a book
  -- that are named, changes nothing; it is answered the same batch if it names that book, and refused
  -- if it names another.
  pub mark_applied_final :
      (b : Batch) (s : ImportStore)
      → IsKeyed s
      → (mark_applied q now s).0 ≡ ok b
      → r.user_id ≡ q.user_id
      → trim_space r.batch_id ≡ trim_space q.batch_id
      → may_mark r ≡ true
      → (b.status ≡ applied)
        × (b.applied_book_id ≡ trim_space q.book_id)
        × (mark_applied r later (mark_applied q now s).1 ≡ again b (mark_applied q now s).1)
  mark_applied_final b s keyed h user batch may =
      let (done, book, stored) = applied_batch q now b s keyed h in
      (
        done,
        book,
        mark_applied-again b (mark_applied q now s).1 may
            (ap (λ u. batch_of u (trim_space r.batch_id) (mark_applied q now s).1) user
              ∙ ap (λ i. batch_of q.user_id i (mark_applied q now s).1) batch
              ∙ stored)
            (ap is_applied done),
      )
