-- ===== src/Audit/Chain.antt =====
-- Logs whose events are chained, the newest first, and the verification that accepts them.
pub mod Recorded
pub mod Evidence
use accounting.Audit.Hashes.{by_seq, check_links, event_hash, verify_chain}
use accounting.Audit.Model.{Codec, Event}
use accounting.Ledger.Page.{signed_lt}
use accounting.Ledger.Page.Slices.{signed_lt_small}
use accounting.Prelude.{
  All, List, [], ap, arith, false, inl, inr, insert_by, length, refl, reverse, reverse-cons,
  reverse-reverse, reverse_aux, sort_by, sort_by-All, suc, sym, ℕ, ◌++◌, ◌<◌, ◌∙◌, ◌∷◌, ◌≡◌, ◌≤◌,
}
use accounting.Prelude.Result.{Result-cases, ok}
use accounting.Prelude.Text.{Text, text_eq_iff, text_eq_refl}
use accounting.Prelude.Word.{add, sign_bit}

-- The hash of the newest event.
abbrev pub head_hash : List Event → Text
head_hash [] = []
head_hash (e ∷ es) = e.hash

abbrev pub IsChain : Codec → List Event → Type 0
IsChain c [] = Unit
IsChain c (e ∷ es) =
    (e.seq ≡ add (length es) 1)
    × (e.prev_hash ≡ head_hash es)
    × (event_hash c e ≡ ok e.hash)
    × IsChain c es

-- One link that `check_links` accepts.
accepted_link :
    (c : Codec) (prev_hash : Text) (index : ℕ) (e : Event) (es : List Event)
    → check_links c prev_hash index (e ∷ es) ≡ ok tt
    → (e.seq ≡ add index 1)
      × (e.prev_hash ≡ prev_hash)
      × (event_hash c e ≡ ok e.hash)
      × (check_links c e.hash (suc index) es ≡ ok tt)
unfolding check_links
accepted_link c prev_hash index e es h = elim (Result-cases (event_hash c e)) [
  | inr (x, bad) ↦ absurd (ground arith)
  | inl (hash, good) ↦ (
    ground arith,
    ground (arith, text_eq_iff e.prev_hash prev_hash),
    ground (arith, text_eq_iff e.hash hash),
    ground arith,
  )
]

accept_link :
    (c : Codec) (prev_hash : Text) (index : ℕ) (e : Event) (es : List Event)
    → e.seq ≡ add index 1
    → e.prev_hash ≡ prev_hash
    → event_hash c e ≡ ok e.hash
    → check_links c prev_hash index (e ∷ es) ≡ check_links c e.hash (suc index) es
unfolding check_links
accept_link c prev_hash index e es h k l =
    ground (arith, text_eq_iff e.prev_hash prev_hash, text_eq_refl e.hash)

pub IsChain-reverse_aux :
    (c : Codec) (es done : List Event)
    → IsChain c done
    → check_links c (head_hash done) (length done) es ≡ ok tt
    → IsChain c (reverse_aux es done)
IsChain-reverse_aux c [] done h k = h
IsChain-reverse_aux c (e ∷ es) done h k =
    let a = accepted_link c (head_hash done) (length done) e es k in
    IsChain-reverse_aux c es (e ∷ done) (a.0, a.1, a.2, h) a.3

check_links-reverse_aux :
    (c : Codec) (es done : List Event)
    → IsChain c (reverse_aux es done)
    → (check_links c (head_hash done) (length done) es ≡ ok tt) × IsChain c done
unfolding check_links
check_links-reverse_aux c [] done h = (refl, h)
check_links-reverse_aux c (e ∷ es) done h =
    let (rest, a) = check_links-reverse_aux c es (e ∷ done) h in
    (accept_link c (head_hash done) (length done) e es a.0 a.1 a.2 ∙ rest, a.3)

pub IsChain-seq_le :
    (c : Codec) (es : List Event) (n : ℕ)
    → IsChain c es
    → length es ≤ n
    → n < sign_bit
    → All (λ e. e.seq ≤ n) es
IsChain-seq_le c [] n h small k = tt
IsChain-seq_le c (e ∷ es) n h small k =
    (omega (arith, h.0), IsChain-seq_le c es n h.3 (omega arith) k)

insert_by-last :
    (e : Event) (es : List Event)
    → e.seq < sign_bit
    → All (λ x. x.seq ≤ e.seq) es
    → insert_by by_seq e es ≡ es ++ e ∷ []
unfolding insert_by
insert_by-last e [] k h = refl
insert_by-last e (x ∷ es) k h =
    let before : signed_lt e.seq x.seq ≡ false =
      signed_lt_small e.seq x.seq k (omega (arith, h.0)) ∙ ground (arith, h.0) in
    rw before (ap (◌∷◌ x) (insert_by-last e es k h.1))

-- The sort turns a log around that is read newest first.
pub sort_by-IsChain :
    (c : Codec) (es : List Event)
    → IsChain c es
    → length es < sign_bit
    → sort_by by_seq es ≡ reverse es
unfolding sort_by
sort_by-IsChain c [] h k = refl
sort_by-IsChain c (e ∷ es) h k =
    let older : All (λ x. x.seq ≤ e.seq) es =
      rw h.0 (IsChain-seq_le c es (add (length es) 1) h.3 (omega arith) (omega arith)) in
    let sorted = sort_by-IsChain c es h.3 (omega arith) in
    insert_by-last e (sort_by by_seq es) (rw h.0 (omega arith))
      (sort_by-All (λ x. x.seq ≤ e.seq) by_seq es older)
    ∙ ap (λ xs. xs ++ e ∷ []) sorted
    ∙ sym (reverse-cons e es)

-- The verification accepts a chained log that is given newest first.
pub IsChain-verify_chain :
    (c : Codec) (es : List Event) → IsChain c es → length es < sign_bit → verify_chain c es ≡ ok tt
unfolding verify_chain
IsChain-verify_chain c es h k =
    rw (sort_by-IsChain c es h k)
      (check_links-reverse_aux c (reverse es) [] (rw (reverse-reverse es) h)).0
