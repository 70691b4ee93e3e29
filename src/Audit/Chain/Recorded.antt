-- ===== src/Audit/Chain/Recorded.antt =====
-- What `Record` appends keeps the log chained.
use accounting.Audit.Chain.{IsChain, IsChain-verify_chain, head_hash}
use accounting.Audit.Hashes.{event_hash, fill_chain, payload, payload_hash, placed, verify_chain}
use accounting.Audit.Model.{Codec, Event, RecordRequest}
use accounting.Audit.Service.{new_event, prepare, record_event}
use accounting.Audit.Store.{AuditStore, all_events, last, new_audit_store, save_event, tail}
use accounting.Prelude.{
  List, [], ap, arith, inl, inr, length, refl, reverse, reverse-append, reverse-cons,
  reverse-reverse, some, suc, sym, ℕ, ◌++◌, ◌+◌, ◌<◌, ◌∙◌, ◌∷◌, ◌≡◌, ◌≤◌,
}
use accounting.Prelude.Result.{Result, Result-cases, err, from_option, not_found, ok}
use accounting.Prelude.Result.Pure.{answer_of}
use accounting.Prelude.Text.{Text}
use accounting.Prelude.Word.{add, sign_bit}

-- The log of a store, newest first, is chained.
abbrev pub IsLog : Codec → AuditStore → Type 0
IsLog c s = IsChain c (all_events s)

abbrev tail_of : List Event → Result Event
tail_of [] = err not_found
tail_of (e ∷ es) = ok e

last-append : (es : List Event) (e : Event) → last (es ++ e ∷ []) ≡ some e
unfolding last
last-append [] e = refl
last-append (x ∷ []) e = refl
last-append (x ∷ y ∷ es) e = last-append (y ∷ es) e

tail-reverse : (es : List Event) → from_option not_found (last (reverse es)) ≡ tail_of es
unfolding last
tail-reverse [] = refl
tail-reverse (e ∷ es) = rw (reverse-cons e es) (rw (last-append (reverse es) e))

tail_lem : (s : AuditStore) → tail s ≡ tail_of (all_events s)
unfolding tail all_events
tail_lem s =
    ap (λ es. from_option not_found (last es)) (sym (reverse-reverse s.events))
    ∙ tail-reverse (reverse s.events)

placed-IsChain :
    (c : Codec) (e : Event) (next : Event) (es : List Event)
    → e.prev_hash ≡ []
    → placed (tail_of es) e ≡ ok next
    → IsChain c es
    → (next.seq ≡ add (length es) 1) × (next.prev_hash ≡ head_hash es)
unfolding placed
placed-IsChain c e next [] none_before h chain = (ground arith, ground arith)
placed-IsChain c e next (x ∷ es) none_before h chain = (ground arith, ground arith)

pub fill_chain-IsChain :
    (c : Codec) (e filled : Event) (s : AuditStore)
    → e.prev_hash ≡ []
    → fill_chain c e s ≡ ok filled
    → IsLog c s
    → IsChain c (filled ∷ all_events s)
unfolding fill_chain event_hash
fill_chain-IsChain c e filled s none_before h log =
    let (next, q, p) = answer_of _ (placed (tail s) e) (sym h) in
    let (hash, l, k) = answer_of _ (payload_hash c (payload c next)) q in
    let place =
      placed-IsChain c e next (all_events s) none_before
        (ap (λ t. placed t e) (sym (tail_lem s)) ∙ p) log in
    (ground (arith, place.0), ground (arith, place.1), ground arith, log)

pub all_events-save_event :
    (e : Event) (s : AuditStore) → all_events (save_event e s).1 ≡ e ∷ all_events s
unfolding all_events save_event
all_events-save_event e s = reverse-append s.events (e ∷ [])

pub record_event-IsLog :
    (c : Codec) (r : RecordRequest) (id : Text) (now : ℕ) (s : AuditStore)
    → IsLog c s
    → IsLog c (record_event c r id now s).1
unfolding record_event prepare
record_event-IsLog c r id now s log = elim (Result-cases (prepare c r id now s)) [
  | inr (x, bad) ↦ rw bad log
  | inl (e, good) ↦
      let filled : fill_chain c (new_event c r id now) s ≡ ok e = ground arith in
      rw good (
        rw (all_events-save_event e s)
          (fill_chain-IsChain c (new_event c r id now) e s refl filled log))
]

-- Requests with their fresh id and time, one after another.
unfoldable pub record_all : Codec → List (RecordRequest × Text × ℕ) → AuditStore → AuditStore
record_all c [] s = s
record_all c ((r, id, now) ∷ rs) s = record_all c rs (record_event c r id now s).1

length-record_event :
    (c : Codec) (r : RecordRequest) (id : Text) (now : ℕ) (s : AuditStore)
    → length (all_events (record_event c r id now s).1) ≤ suc (length (all_events s))
unfolding record_event
length-record_event c r id now s = elim (Result-cases (prepare c r id now s)) [
  | inr (x, bad) ↦ rw bad (omega arith)
  | inl (e, good) ↦ rw good (rw (all_events-save_event e s) (omega arith))
]

start : (c : Codec) → IsLog c new_audit_store
unfolding all_events
start c = tt

start_length : length (all_events new_audit_store) ≡ 0
unfolding all_events
start_length = refl

record_all-IsLog :
    (c : Codec) (rs : List (RecordRequest × Text × ℕ)) (s : AuditStore)
    → IsLog c s
    → IsLog c (record_all c rs s)
      × (length (all_events (record_all c rs s)) ≤ length rs + length (all_events s))
unfolding record_all
record_all-IsLog c [] s log = (log, omega arith)
record_all-IsLog c ((r, id, now) ∷ rs) s log =
    let ih =
      record_all-IsLog c rs (record_event c r id now s).1 (record_event-IsLog c r id now s log) in
    (ih.0, omega (arith, ih.1, length-record_event c r id now s))

-- Whatever fewer than 2 ^ 63 requests are recorded one after another from the empty store, those
-- that fail included, the verification accepts the log that the store then answers.
pub record_all-verify_chain :
    (c : Codec) (rs : List (RecordRequest × Text × ℕ))
    → length rs < sign_bit
    → verify_chain c (all_events (record_all c rs new_audit_store)) ≡ ok tt
record_all-verify_chain c rs few =
    let log = record_all-IsLog c rs new_audit_store (start c) in
    IsChain-verify_chain c (all_events (record_all c rs new_audit_store)) log.0
      (omega (arith, log.1, start_length))
