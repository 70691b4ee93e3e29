-- ===== src/Audit/Model.antt =====
-- backend/internal/audit/model.go: audit events and requests. An `Action` is a string, and a map of
-- metadata is given in the order in which `range` visits it; nil and an empty map are one value.
use accounting.Prelude.{List, ℕ}
use accounting.Prelude.Dict.{Dict}
use accounting.Prelude.Result.{Result}
use accounting.Prelude.Text.{Text}

pub record Event : Type 0 where
  pub id : Text
  pub seq : ℕ
  pub prev_hash : Text
  pub hash : Text
  pub actor_id : Text
  pub actor_email : Text
  pub action : Text
  pub target_type : Text
  pub target_id : Text
  pub metadata : Dict Text
  pub created_at : ℕ

pub record RecordRequest : Type 0 where
  pub actor_id : Text
  pub actor_email : Text
  pub action : Text
  pub target_type : Text
  pub target_id : Text
  pub metadata : Dict Text

pub record ListRequest : Type 0 where
  pub actor_id : Text
  pub page : ℕ
  pub page_size : ℕ

pub record ListResult : Type 0 where
  pub items : List Event
  pub page : ℕ
  pub page_size : ℕ
  pub total : ℕ

-- The structure that `eventHash` encodes; `encoding/json` writes a map in the order of its keys.
pub record Payload : Type 0 where
  pub seq : ℕ
  pub prev_hash : Text
  pub id : Text
  pub actor_id : Text
  pub actor_email : Text
  pub action : Text
  pub target_type : Text
  pub target_id : Text
  pub metadata : Dict Text
  pub created_at : Text

-- `json.Marshal` of a payload, SHA-256 in hexadecimal, a time in RFC 3339, `strings.ToLower`.
pub record Codec : Type 0 where
  pub marshal : Payload → Result Text
  pub sha256_hex : Text → Text
  pub format_time : ℕ → Text
  pub to_lower : Text → Text
