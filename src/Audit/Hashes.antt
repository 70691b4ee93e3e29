-- ===== src/Audit/Hashes.antt =====
-- backend/internal/audit/service.go: the hashes that chain the events, and their verification.
use accounting.Audit.Model.{Codec, Event, Payload}
use accounting.Audit.Store.{AuditStore, tail}
use accounting.Ledger.Page.{signed_lt}
use accounting.Prelude.{Bool, List, [], if◌then◌else◌, not, sort_by, ℕ, ◌+◌, ◌==◌, ◌∷◌}
use accounting.Prelude.Result.{Result, err, fail_if, failure, not_found, ok}
use accounting.Prelude.Result.Pure.{◌>>=◌, ◌>>◌}
use accounting.Prelude.Text.{Text, is_empty, text_eq, text_leb, trim_space}
use accounting.Prelude.Word.{add}

abbrev by_key : Text × Text → Text × Text → Bool
by_key a b = text_leb a.0 b.0

abbrev pub payload : Codec → Event → Payload
payload c e = record {
  seq = e.seq;
  prev_hash = e.prev_hash;
  id = e.id;
  actor_id = e.actor_id;
  actor_email = e.actor_email;
  action = e.action;
  target_type = e.target_type;
  target_id = e.target_id;
  metadata = sort_by by_key e.metadata;
  created_at = c.format_time e.created_at;
}

-- The hash of a payload.
unfoldable pub payload_hash : Codec → Payload → Result Text
payload_hash c p = do encoded ← c.marshal p; ok (c.sha256_hex encoded)

-- `eventHash`
unfoldable pub event_hash : Codec → Event → Result Text
event_hash c e = payload_hash c (payload c e)

-- `SubjectHash`
unfoldable pub subject_hash : Codec → Text → Text
subject_hash c subject =
    if is_empty (c.to_lower (trim_space subject))
    then []
    else c.sha256_hex (c.to_lower (trim_space subject))

-- The place of an event behind the tail of the log.
unfoldable pub placed : Result Event → Event → Result Event
placed (ok tail) e = ok (record e { seq = add tail.seq 1; prev_hash = tail.hash })
placed (err not_found) e = ok (record e { seq = 1 })
placed (err other) e = err other

-- `fillChain`
unfoldable pub fill_chain : Codec → Event → AuditStore → Result Event
unfolding placed
fill_chain c e s = do
  next ← placed (tail s) e
  hash ← event_hash c next
  ok (record next { hash = hash })

-- The comparison of the sort: `left.Seq <= right.Seq`.
abbrev pub by_seq : Event → Event → Bool
by_seq a b = not (signed_lt b.seq a.seq)

-- The loop of `VerifyChain` at `index`.
unfoldable pub check_links : Codec → Text → ℕ → List Event → Result (Unit {0})
check_links c prev_hash index [] = ok tt
check_links c prev_hash index (e ∷ es) = do
  fail_if (not (e.seq == add index 1)) failure
  fail_if (not (text_eq e.prev_hash prev_hash)) failure
  hash ← event_hash c e
  fail_if (not (text_eq e.hash hash)) failure
  check_links c e.hash (index + 1) es

-- `VerifyChain`
unfoldable pub verify_chain : Codec → List Event → Result (Unit {0})
verify_chain c events = check_links c [] 0 (sort_by by_seq events)
