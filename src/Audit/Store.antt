-- ===== src/Audit/Store.antt =====
-- backend/internal/audit/store.go: the in-memory store, the events in append order. A `clone` of an
-- event copies its map and is the identity on values.
use accounting.Audit.Model.{Event}
use accounting.Prelude.{List, Option, [], keep, none, reverse, some, ◌++◌, ◌∷◌}
use accounting.Prelude.Result.{Action, Result, fail_if, from_option, invalid_input, not_found, ok}
use accounting.Prelude.Result.Pure.{◌>>◌}
use accounting.Prelude.Text.{Text, is_empty, text_eq}

pub record AuditStore : Type 0 where
  pub events : List Event

-- `NewMemoryStore`
abbrev pub new_audit_store : AuditStore
new_audit_store = record { events = [] }

-- `SaveEvent`
unfoldable pub save_event : Event → Action AuditStore Event
save_event e s = (ok e, record s { events = s.events ++ e ∷ [] })

-- `EventsByActor`: the loop runs from the last event to the first.
unfoldable pub events_by_actor : Text → AuditStore → Result (List Event)
events_by_actor actor_id s = do
  fail_if (is_empty actor_id) invalid_input
  ok (keep (λ e. text_eq e.actor_id actor_id) (reverse s.events))

-- `AllEvents`
unfoldable pub all_events : AuditStore → List Event
all_events s = reverse s.events

-- `s.events[len(s.events)-1]`
unfoldable pub last : List Event → Option Event
last [] = none
last (e ∷ []) = some e
last (e ∷ f ∷ es) = last (f ∷ es)

-- `Tail`
unfoldable pub tail : AuditStore → Result Event
unfolding last
tail s = from_option not_found (last s.events)
