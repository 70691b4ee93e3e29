-- ===== src/Audit/Snapshot/Durable.antt =====
-- The log that a restart finds.
use accounting.Audit.Chain.{IsChain-verify_chain}
use accounting.Audit.Chain.Recorded.{IsLog, all_events-save_event, fill_chain-IsChain}
use accounting.Audit.Hashes.{fill_chain, verify_chain}
use accounting.Audit.Model.{Codec, Event, RecordRequest}
use accounting.Audit.Service.{new_event, prepare}
use accounting.Audit.Snapshot.{
  SnapshotStore, from_snapshot, persist, record_durable, reload_event, reload_metadata, reload_text,
  reopen, save_durable,
}
use accounting.Audit.Store.{AuditStore, all_events, save_event}
use accounting.Prelude.{
  All, List, [], ap, arith, inl, inr, length, map, refl, subst, suc, sym, ℕ, ◌+◌, ◌<◌, ◌∷◌, ◌≡◌,
  ◌≤◌,
}
use accounting.Prelude.Dict.{Dict}
use accounting.Prelude.Result.{Result, Result-cases, err, ok}
use accounting.Prelude.Text.{Text}
use accounting.Prelude.Text.Bytes.{max_rune}
use accounting.Prelude.Word.{sign_bit}

-- Requests with their id and time, and whether the sink takes the write.
unfoldable pub record_each :
    Codec → List (RecordRequest × Text × ℕ × Result (Unit {0})) → SnapshotStore → SnapshotStore
record_each c [] s = s
record_each c ((r, id, now, saved) ∷ rs) s = record_each c rs (record_durable c r id now saved s).1

-- Both logs are chained, and no longer than `n`.
pub record IsSound (c : Codec) (n : ℕ) (s : SnapshotStore) : Type 0 where
  pub memory_log : IsLog c s.memory
  pub sink_log : IsLog c (from_snapshot s.sink)
  pub memory_length : length (all_events s.memory) ≤ n
  pub sink_length : length (all_events (from_snapshot s.sink)) ≤ n

saved_log :
    (c : Codec) (r : RecordRequest) (id : Text) (now : ℕ) (e : Event) (s : AuditStore)
    → prepare c r id now s ≡ ok e
    → IsLog c s
    → IsLog c (save_event e s).1
unfolding prepare
saved_log c r id now e s good log =
    let filled : fill_chain c (new_event c r id now) s ≡ ok e = ground arith in
    rw (all_events-save_event e s) (fill_chain-IsChain c (new_event c r id now) e s refl filled log)

persisted :
    (c : Codec) (saved : Result (Unit {0})) (n : ℕ) (e : Event) (s : SnapshotStore)
    (next : AuditStore)
    → IsLog c next
    → length (all_events next) ≤ suc n
    → IsSound c n s
    → IsSound c (suc n) (persist saved e (record s { memory = next })).1
unfolding persist
persisted c (ok _) n e s next log few v = record {
  memory_log = log;
  sink_log = log;
  memory_length = few;
  sink_length = few;
}
persisted c (err x) n e s next log few v = record {
  memory_log = log;
  sink_log = v.sink_log;
  memory_length = few;
  sink_length = omega (arith, v.sink_length);
}

record_durable-IsSound :
    (c : Codec) (r : RecordRequest) (id : Text) (now : ℕ) (saved : Result (Unit {0})) (n : ℕ)
    (s : SnapshotStore)
    → IsSound c n s
    → IsSound c (suc n) (record_durable c r id now saved s).1
unfolding record_durable save_durable persist
record_durable-IsSound c r id now saved n s v = elim (Result-cases (prepare c r id now s.memory)) [
  | inr (x, bad) ↦ rw bad (record {
    memory_log = v.memory_log;
    sink_log = v.sink_log;
    memory_length = omega (arith, v.memory_length);
    sink_length = omega (arith, v.sink_length);
  })
  | inl (e, good) ↦
      let next = (save_event e s.memory).1 in
      let log : IsLog c next = saved_log c r id now e s.memory good v.memory_log in
      let few : length (all_events next) ≤ suc n =
        omega (arith, ap length (all_events-save_event e s.memory), v.memory_length) in
      rw good (persisted c saved n e s next log few v)
]

start : (c : Codec) → IsSound c 0 (reopen [])
unfolding all_events
start c = record {
  memory_log = tt;
  sink_log = tt;
  memory_length = omega arith;
  sink_length = omega arith;
}

record_each-IsSound :
    (c : Codec) (rs : List (RecordRequest × Text × ℕ × Result (Unit {0}))) (n : ℕ)
    (s : SnapshotStore)
    → IsSound c n s
    → IsSound c (n + length rs) (record_each c rs s)
unfolding record_each
record_each-IsSound c [] n s v = subst (λ k. IsSound c k s) (omega arith) v
record_each-IsSound c ((r, id, now, saved) ∷ rs) n s v =
    subst (λ k. IsSound c k (record_each c rs (record_durable c r id now saved s).1)) (omega arith)
      (record_each-IsSound c rs (suc n) (record_durable c r id now saved s).1
        (record_durable-IsSound c r id now saved n s v))

-- Valid UTF-8.
abbrev pub IsUtf8 : Text → Type 0
IsUtf8 t = All (λ c. c < max_rune) t

pub record IsUtf8Event (e : Event) : Type 0 where
  pub id : IsUtf8 e.id
  pub prev_hash : IsUtf8 e.prev_hash
  pub hash : IsUtf8 e.hash
  pub actor_id : IsUtf8 e.actor_id
  pub actor_email : IsUtf8 e.actor_email
  pub action : IsUtf8 e.action
  pub target_type : IsUtf8 e.target_type
  pub target_id : IsUtf8 e.target_id
  pub metadata : All (λ p. IsUtf8 p.0 × IsUtf8 p.1) e.metadata

reload_text-IsUtf8 : (t : Text) → IsUtf8 t → reload_text t ≡ t
unfolding reload_text
reload_text-IsUtf8 [] v = refl
reload_text-IsUtf8 (c ∷ t) v = ground (arith, v.0, reload_text-IsUtf8 t v.1)

reload_metadata-IsUtf8 :
    (d : Dict Text) → All (λ p. IsUtf8 p.0 × IsUtf8 p.1) d → reload_metadata d ≡ d
unfolding reload_metadata
reload_metadata-IsUtf8 [] v = refl
reload_metadata-IsUtf8 ((k, x) ∷ d) v =
    rw (reload_text-IsUtf8 k v.0.0, reload_text-IsUtf8 x v.0.1, reload_metadata-IsUtf8 d v.1) refl

reload_event-IsUtf8 : (e : Event) → IsUtf8Event e → reload_event e ≡ e
unfolding reload_event
reload_event-IsUtf8 e v =
    rw
      (
        reload_text-IsUtf8 e.id v.id,
        reload_text-IsUtf8 e.prev_hash v.prev_hash,
        reload_text-IsUtf8 e.hash v.hash,
        reload_text-IsUtf8 e.actor_id v.actor_id,
        reload_text-IsUtf8 e.actor_email v.actor_email,
        reload_text-IsUtf8 e.action v.action,
        reload_text-IsUtf8 e.target_type v.target_type,
        reload_text-IsUtf8 e.target_id v.target_id,
        reload_metadata-IsUtf8 e.metadata v.metadata,
      )
      refl

reload_events-IsUtf8 : (es : List Event) → All IsUtf8Event es → map reload_event es ≡ es
reload_events-IsUtf8 [] v = refl
reload_events-IsUtf8 (e ∷ es) v = rw (reload_event-IsUtf8 e v.0, reload_events-IsUtf8 es v.1) refl

-- Whatever fewer than 2 ^ 63 requests are recorded from an empty log, and whichever writes of the
-- snapshot fail, the verification accepts the log that a restart reads from the sink, if every text
-- of every event in the sink is valid UTF-8.
pub record_each-verify_chain :
    (c : Codec) (rs : List (RecordRequest × Text × ℕ × Result (Unit {0})))
    → length rs < sign_bit
    → All IsUtf8Event (record_each c rs (reopen [])).sink
    → verify_chain c (all_events (reopen (record_each c rs (reopen [])).sink).memory) ≡ ok tt
record_each-verify_chain c rs few valid =
    let v = record_each-IsSound c rs 0 (reopen []) (start c) in
    let sink = (record_each c rs (reopen [])).sink in
    subst (λ es. verify_chain c (all_events (from_snapshot es)) ≡ ok tt)
      (sym (reload_events-IsUtf8 sink valid))
      (IsChain-verify_chain c (all_events (from_snapshot sink)) v.sink_log
        (omega (arith, v.sink_length)))
