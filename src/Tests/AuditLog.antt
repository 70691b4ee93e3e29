-- ===== src/Tests/AuditLog.antt =====
-- A log of two events, with an encoding that keeps the ids.
use accounting.Audit.Chain.{head_hash}
use accounting.Audit.Chain.Evidence.{
  Collision, newest_first, race-verify_chain, verify_chain_determines,
}
use accounting.Audit.Chain.Recorded.{IsLog, record_all, record_all-verify_chain}
use accounting.Audit.Hashes.{
  check_links, event_hash, fill_chain, payload, payload_hash, placed, verify_chain,
}
use accounting.Audit.Metadata.{
  IsSafe, add_safe, clip_value, is_sensitive_metadata_key, sanitize_from, sanitize_metadata,
  sanitize_metadata-IsSafe,
}
use accounting.Audit.Model.{Codec, Event, RecordRequest}
use accounting.Audit.Service.{prepare}
use accounting.Audit.Snapshot.{persist, record_durable, reopen, save_durable}
use accounting.Audit.Snapshot.Durable.{IsUtf8, IsUtf8Event, record_each, record_each-verify_chain}
use accounting.Audit.Store.{all_events, last, new_audit_store, save_event, tail}
use accounting.Ledger.Page.{signed_lt}
use accounting.Prelude.{
  All, Bool, List, [], arith, insert_by, length, ltb, map, refl, sort_by, true, ◌&&◌, ℕ, ◌++◌, ◌+◌,
  ◌<◌, ◌∷◌, ◌≡◌, ◌≢◌, ◌⊎◌,
}
use accounting.Prelude.Dict.{Dict, insert}
use accounting.Prelude.Result.{Result, err, failure, ok}
use accounting.Prelude.Text.{Text, text, text_eq, trim_left, trim_right, trim_space}
use accounting.Prelude.Text.Bytes.{byte_length, has_prefix, has_substring, max_rune}
use accounting.Prelude.Word.{sign_bit}

abbrev codec : Codec
codec = record {
  marshal = λ p. ok (p.id ++ p.prev_hash);
  sha256_hex = λ t. t;
  format_time = λ n. n ∷ [];
  to_lower = λ t. t;
}

abbrev signed : RecordRequest
signed = record {
  actor_id = text "ann";
  actor_email = [];
  action = text "auth.login";
  target_type = text "user";
  target_id = text "ann";
  metadata = (text "ip", text " ::1 ") ∷ (text "user password", text "x") ∷ [];
}

abbrev nameless : RecordRequest
nameless = record signed { action = [] }

abbrev runs : List (RecordRequest × Text × ℕ)
runs = (signed, text "a", 1) ∷ (nameless, text "b", 2) ∷ (signed, text "c", 3) ∷ []

record_all-verify_chain_example :
    verify_chain codec (all_events (record_all codec runs new_audit_store)) ≡ ok tt
record_all-verify_chain_example = record_all-verify_chain codec runs (omega arith)

abbrev link : ℕ → Text → Text → Event
link seq prev id = record {
  id = id;
  seq = seq;
  prev_hash = prev;
  hash = id ++ prev;
  actor_id = [];
  actor_email = [];
  action = text "auth.login";
  target_type = text "user";
  target_id = [];
  metadata = [];
  created_at = 1;
}

abbrev pair_log : List Event
pair_log = link 2 (text "a") (text "b") ∷ link 1 [] (text "a") ∷ []

-- The same log with another target in its first event, which this encoding does not see.
abbrev forged_log : List Event
forged_log =
    link 2 (text "a") (text "b") ∷ record (link 1 [] (text "a")) { target_id = text "z" } ∷ []

pair_log-ok : verify_chain codec pair_log ≡ ok tt
unfolding verify_chain check_links event_hash payload_hash sort_by insert_by signed_lt text_eq
pair_log-ok = refl

forged_log-ok : verify_chain codec forged_log ≡ ok tt
unfolding verify_chain check_links event_hash payload_hash sort_by insert_by signed_lt text_eq
forged_log-ok = refl

same_end : head_hash (newest_first pair_log) ≡ head_hash (newest_first forged_log)
unfolding sort_by insert_by signed_lt
same_end = refl

verify_chain_determines_example :
    (map (payload codec) (newest_first pair_log) ≡ map (payload codec) (newest_first forged_log))
    ⊎ Collision codec
verify_chain_determines_example =
    verify_chain_determines codec pair_log forged_log pair_log-ok forged_log-ok refl same_end

abbrev first_event : Event
first_event = record {
  id = text "a";
  seq = 1;
  prev_hash = [];
  hash = text "a";
  actor_id = text "ann";
  actor_email = [];
  action = text "auth.login";
  target_type = text "user";
  target_id = text "ann";
  metadata = (text "ip", text "::1") ∷ [];
  created_at = 1;
}

abbrev second_event : Event
second_event = record first_event { id = text "b"; hash = text "b"; created_at = 2 }

prepared_first : prepare codec signed (text "a") 1 new_audit_store ≡ ok first_event
unfolding prepare fill_chain placed tail last event_hash payload_hash sanitize_metadata
    sanitize_from add_safe clip_value is_sensitive_metadata_key has_substring has_prefix byte_length
    insert trim_space trim_left trim_right
prepared_first = refl

prepared_second : prepare codec signed (text "b") 2 new_audit_store ≡ ok second_event
unfolding prepare fill_chain placed tail last event_hash payload_hash sanitize_metadata
    sanitize_from add_safe clip_value is_sensitive_metadata_key has_substring has_prefix byte_length
    insert trim_space trim_left trim_right
prepared_second = refl

no_events : IsLog codec new_audit_store
unfolding all_events
no_events = tt

few_events : length (all_events new_audit_store) + 2 < sign_bit
unfolding all_events
few_events = omega arith

race-verify_chain_example :
    verify_chain codec
      (all_events (save_event second_event (save_event first_event new_audit_store).1).1)
    ≢ ok tt
race-verify_chain_example =
    race-verify_chain codec signed signed (text "a") (text "b") 1 2 first_event second_event
      new_audit_store no_events few_events prepared_first prepared_second

sanitize_metadata-IsSafe_example : All (IsSafe codec) (sanitize_metadata codec signed.metadata)
sanitize_metadata-IsSafe_example = sanitize_metadata-IsSafe codec signed.metadata

-- The sink refuses the first write.
abbrev attempts : List (RecordRequest × Text × ℕ × Result (Unit {0}))
attempts = (signed, text "a", 1, err failure) ∷ (signed, text "c", 3, ok tt) ∷ []

abbrev low : Text → Bool
low [] = true
low (c ∷ t) = ltb c max_rune && low t

low-IsUtf8 : (t : Text) → low t ≡ true → IsUtf8 t
low-IsUtf8 [] h = tt
low-IsUtf8 (c ∷ t) h = (ground arith, low-IsUtf8 t (ground arith))

abbrev low_pairs : Dict Text → Bool
low_pairs [] = true
low_pairs ((k, v) ∷ d) = low k && low v && low_pairs d

low_pairs-IsUtf8 : (d : Dict Text) → low_pairs d ≡ true → All (λ p. IsUtf8 p.0 × IsUtf8 p.1) d
low_pairs-IsUtf8 [] h = tt
low_pairs-IsUtf8 ((k, v) ∷ d) h =
    ((low-IsUtf8 k (ground arith), low-IsUtf8 v (ground arith)), low_pairs-IsUtf8 d (ground arith))

abbrev low_event : Event → Bool
low_event e =
    low e.id
    && low e.prev_hash
    && low e.hash
    && low e.actor_id
    && low e.actor_email
    && low e.action
    && low e.target_type
    && low e.target_id
    && low_pairs e.metadata

low_event-IsUtf8Event : (e : Event) → low_event e ≡ true → IsUtf8Event e
low_event-IsUtf8Event e h = record {
  id = low-IsUtf8 e.id (ground arith);
  prev_hash = low-IsUtf8 e.prev_hash (ground arith);
  hash = low-IsUtf8 e.hash (ground arith);
  actor_id = low-IsUtf8 e.actor_id (ground arith);
  actor_email = low-IsUtf8 e.actor_email (ground arith);
  action = low-IsUtf8 e.action (ground arith);
  target_type = low-IsUtf8 e.target_type (ground arith);
  target_id = low-IsUtf8 e.target_id (ground arith);
  metadata = low_pairs-IsUtf8 e.metadata (ground arith);
}

attempts_utf8 : All IsUtf8Event (record_each codec attempts (reopen [])).sink
unfolding record_each record_durable save_durable persist prepare fill_chain placed tail last
    save_event event_hash payload_hash sanitize_metadata sanitize_from add_safe clip_value
    is_sensitive_metadata_key has_substring has_prefix byte_length insert trim_space trim_left
    trim_right
attempts_utf8 = (low_event-IsUtf8Event _ refl, (low_event-IsUtf8Event _ refl, tt))

record_each-verify_chain_example :
    verify_chain codec (all_events (reopen (record_each codec attempts (reopen [])).sink).memory)
    ≡ ok tt
record_each-verify_chain_example =
    record_each-verify_chain codec attempts (omega arith) attempts_utf8
