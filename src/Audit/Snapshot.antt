-- ===== src/Audit/Snapshot.antt =====
-- backend/internal/audit/file_store.go and persistence/jsonfile.go: the log in memory, written out as
-- a whole in JSON after each event. Whether the sink takes the write is an argument. JSON has no
-- invalid bytes: `encoding/json` writes U+FFFD for each, and that is what a restart reads.
pub mod Durable
use accounting.Audit.Model.{Codec, Event, RecordRequest}
use accounting.Audit.Service.{prepare}
use accounting.Audit.Store.{AuditStore, save_event}
use accounting.Prelude.{List, [], if◌then◌else◌, ltb, map, ℕ, ◌∷◌}
use accounting.Prelude.Dict.{Dict}
use accounting.Prelude.Result.{Action, Result, err, failure, ok}
use accounting.Prelude.Text.{Text}
use accounting.Prelude.Text.Bytes.{max_rune}

-- The sink holds the events as they were when they were written.
pub record SnapshotStore : Type 0 where
  pub memory : AuditStore
  pub sink : List Event

-- `NewMemoryStoreFromSnapshot`
abbrev pub from_snapshot : List Event → AuditStore
from_snapshot events = record { events = events }

-- A string that was written in JSON and read back.
unfoldable pub reload_text : Text → Text
reload_text t = map (λ c. if ltb c max_rune then c else 0xfffd) t

-- A key that the metadata repeats then is not merged: the keys of the program are constants.
unfoldable pub reload_metadata : Dict Text → Dict Text
reload_metadata [] = []
reload_metadata ((k, v) ∷ d) = (reload_text k, reload_text v) ∷ reload_metadata d

-- `encoder.Encode` and then `decoder.Decode`; numbers and times in UTC come back as they were.
unfoldable pub reload_event : Event → Event
reload_event e = record {
  id = reload_text e.id;
  seq = e.seq;
  prev_hash = reload_text e.prev_hash;
  hash = reload_text e.hash;
  actor_id = reload_text e.actor_id;
  actor_email = reload_text e.actor_email;
  action = reload_text e.action;
  target_type = reload_text e.target_type;
  target_id = reload_text e.target_id;
  metadata = reload_metadata e.metadata;
  created_at = e.created_at;
}

-- `newSnapshotStore`, over the events that were written.
abbrev pub reopen : List Event → SnapshotStore
reopen events = record { memory = from_snapshot (map reload_event events); sink = events }

-- `persist`: what `SaveEvent` does behind the write in memory.
unfoldable pub persist : Result (Unit {0}) → Event → SnapshotStore → Result Event × SnapshotStore
persist (ok _) e s = (ok e, record s { sink = s.memory.events })
persist (err x) e s = (err failure, s)

-- `SaveEvent`
unfoldable pub save_durable : Result (Unit {0}) → Event → Action SnapshotStore Event
save_durable saved e s = persist saved e (record s { memory = (save_event e s.memory).1 })

save_prepared_durable : Result (Unit {0}) → Result Event → Action SnapshotStore Event
save_prepared_durable saved (ok e) s = save_durable saved e s
save_prepared_durable saved (err x) s = (err x, s)

-- `Record` over this store.
unfoldable pub record_durable :
    Codec → RecordRequest → Text → ℕ → Result (Unit {0}) → Action SnapshotStore Event
unfolding save_prepared_durable
record_durable c r id now saved s = save_prepared_durable saved (prepare c r id now s.memory) s
