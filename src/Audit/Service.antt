-- ===== src/Audit/Service.antt =====
-- backend/internal/audit/service.go: recording and listing events. The clock and a new id are
-- arguments. `Record` reads the tail and appends in two calls of the store.
use mathlib.Core.Option
use accounting.Audit.Hashes.{fill_chain}
use accounting.Audit.Metadata.{sanitize_metadata}
use accounting.Audit.Model.{Codec, Event, ListRequest, ListResult, RecordRequest}
use accounting.Audit.Store.{AuditStore, all_events, events_by_actor, save_event}
use accounting.Ledger.Page.{default_page_size, max_page_size, offset, signed_lt, slice}
use accounting.Prelude.{List, Option, [], if◌then◌else◌, length, some, ℕ, ◌==◌, ◌||◌}
use accounting.Prelude.Result.{Action, Result, err, fail_if, invalid_input, ok}
use accounting.Prelude.Result.Pure.{◌>>◌}
use accounting.Prelude.Text.{Text, is_empty, trim_space}
use accounting.Prelude.Word.{add}

abbrev pub new_event : Codec → RecordRequest → Text → ℕ → Event
new_event c r id now = record {
  id = id;
  seq = 0;
  prev_hash = [];
  hash = [];
  actor_id = trim_space r.actor_id;
  actor_email = c.to_lower (trim_space r.actor_email);
  action = r.action;
  target_type = trim_space r.target_type;
  target_id = trim_space r.target_id;
  metadata = sanitize_metadata c r.metadata;
  created_at = now;
}

-- `Record` up to its write.
unfoldable pub prepare : Codec → RecordRequest → Text → ℕ → AuditStore → Result Event
prepare c r id now s = do
  fail_if (is_empty r.action) invalid_input
  fail_if (is_empty (trim_space r.target_type)) invalid_input
  fill_chain c (new_event c r id now) s

save_prepared : Result Event → Action AuditStore Event
save_prepared (ok e) s = save_event e s
save_prepared (err x) s = (err x, s)

-- `Record`
unfoldable pub record_event : Codec → RecordRequest → Text → ℕ → Action AuditStore Event
unfolding save_prepared
record_event c r id now s = save_prepared (prepare c r id now s) s

abbrev pub default_page : ℕ
default_page = 1

abbrev or_else : ℕ → ℕ → ℕ
or_else n d = if n == 0 then d else n

-- The page and its size where a request leaves them out, and their bounds.
unfoldable pub page_bounds : ListRequest → Result (ℕ × ℕ)
page_bounds r = do
  let page = or_else r.page default_page
  let size = or_else r.page_size default_page_size
  fail_if (signed_lt page 1 || signed_lt size 1 || signed_lt max_page_size size) invalid_input
  ok (page, size)

-- `paginateEvents`: `none` is the panic of a slice out of range.
unfoldable pub paginate_events : List Event → ℕ → ℕ → Option (List Event)
paginate_events events page size =
    let start =
      if signed_lt (offset page size) 0 || signed_lt (length events) (offset page size)
      then length events
      else offset page size in
    let stop =
      if signed_lt (length events) (add start size) then length events else add start size in
    slice start stop events

abbrev result_of : ℕ → ℕ → List Event → List Event → ListResult
result_of page size events items = record {
  items = items;
  page = page;
  page_size = size;
  total = length events;
}

-- `List`; the outer `Option` is the panic.
unfoldable pub list_events : ListRequest → AuditStore → Option (Result ListResult)
list_events r s =
    if is_empty (trim_space r.actor_id) then some (err invalid_input) else elim (page_bounds r) [
      | err x ↦ some (err x)
      | ok (page, size) ↦ elim (events_by_actor r.actor_id s) [
        | err x ↦ some (err x)
        | ok events ↦
            Option.map (λ items. ok (result_of page size events items))
              (paginate_events events page size)
      ]
    ]

-- `ListAll`
unfoldable pub list_all : ListRequest → AuditStore → Option (Result ListResult)
list_all r s = elim (page_bounds r) [
  | err x ↦ some (err x)
  | ok (page, size) ↦
      Option.map (λ items. ok (result_of page size (all_events s) items))
        (paginate_events (all_events s) page size)
]
