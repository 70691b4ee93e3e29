-- ===== src/Auth/Store.antt =====
-- backend/internal/auth/store.go: `MemoryStore` without the passkeys. Every method holds the mutex
-- for its whole body, so it is one step. A key that is a struct of two strings is two arguments.
use accounting.Auth.Model.{
  EmailCodePurpose, EmailCodeRecord, LoginThrottle, PendingTotpSetup, Session, Time, UserRecord,
  other_status, same_purpose,
}
use accounting.Prelude.{
  Bool, Option, [], false, if◌then◌else◌, is_some, ltb, none, or_default, some, true, ℕ, ◌&&◌, ◌+◌,
}
use accounting.Prelude.Result.{Action, Result, err, failure, from_option, ok}
use accounting.Prelude.Result.Pure.{◌>>=◌}
use accounting.Prelude.Table.{Table, drop_key, no_rows, put}
use accounting.Prelude.Text.{Text, is_empty, text, text_eq, trim_space}

pub record AuthStore : Type 0 where
  pub users : Table UserRecord
  pub ids_by_email : Table Text
  pub sessions : Table Session
  pub email_codes : Text → EmailCodePurpose → Option EmailCodeRecord
  pub pending_totp : Table PendingTotpSetup
  pub replays : Text → Text → Option Time
  pub failed_totps : Table ℕ
  pub throttles : Table LoginThrottle

abbrev pub AuthAction : Type 0 → Type 0
AuthAction = Action AuthStore

-- `NewMemoryStore`
abbrev pub empty_auth : AuthStore
empty_auth = record {
  users = no_rows;
  ids_by_email = no_rows;
  sessions = no_rows;
  email_codes = λ _ _. none;
  pending_totp = no_rows;
  replays = λ _ _. none;
  failed_totps = no_rows;
  throttles = no_rows;
}

abbrev pub default_base_currency : Text
default_base_currency = text "USD"

-- `cloneUserRecord`
unfoldable pub clone_user_record : UserRecord → UserRecord
clone_user_record r =
    if is_empty (trim_space r.user.base_currency)
    then record r { user = record r.user { base_currency = default_base_currency } }
    else r

-- `CreateUser`
unfoldable pub create_user : UserRecord → AuthAction UserRecord
create_user r s =
    if is_some (s.users r.user.id)
    then (err failure, s)
    else if is_some (s.ids_by_email r.user.email)
    then (err failure, s)
    else (
      ok (clone_user_record r),
      record s {
        users = put r.user.id (clone_user_record r) s.users;
        ids_by_email = put r.user.email r.user.id s.ids_by_email;
      },
    )

-- The zero record that a missing id reads as.
abbrev pub zero_user : UserRecord
zero_user = record {
  user = record {
    id = [];
    email = [];
    status = other_status [];
    email_verified = false;
    totp_enabled = false;
    base_currency = [];
    created_at = 0;
    updated_at = 0;
  };
  password_hash = [];
  totp_secret = [];
  external_sso_subject = [];
}

-- `UserByEmail`
unfoldable pub user_by_email : Text → AuthStore → Result UserRecord
user_by_email email s = do
  id ← from_option failure (s.ids_by_email email)
  ok (clone_user_record (or_default (s.users id) zero_user))

-- `UserByID`
unfoldable pub user_by_id : Text → AuthStore → Result UserRecord
user_by_id id s = do r ← from_option failure (s.users id); ok (clone_user_record r)

-- `UpdateUser`
unfoldable pub update_user : UserRecord → AuthAction UserRecord
update_user r s = elim (s.users r.user.id) [
  | none ↦ (err failure, s)
  | some old ↦
      if text_eq old.user.email r.user.email
      then (
        ok (clone_user_record r),
        record s { users = put r.user.id (clone_user_record r) s.users },
      )
      else (err failure, s)
]

-- `StoreSession`
unfoldable pub store_session : Text → Session → AuthAction (Unit {0})
store_session token_hash x s = (ok tt, record s { sessions = put token_hash x s.sessions })

-- `SessionByTokenHash`
unfoldable pub session_by_token_hash : Text → AuthStore → Result Session
session_by_token_hash token_hash s = from_option failure (s.sessions token_hash)

-- `DeleteSession`
unfoldable pub delete_session : Text → AuthAction (Unit {0})
delete_session token_hash s = (ok tt, record s { sessions = drop_key token_hash s.sessions })

abbrev pub unless_owned : Text → Option Session → Option Session
unless_owned user_id none = none
unless_owned user_id (some x) = if text_eq x.user_id user_id then none else some x

-- `DeleteSessionsByUser`
unfoldable pub delete_sessions_by_user : Text → AuthAction (Unit {0})
delete_sessions_by_user user_id s =
    (ok tt, record s { sessions = λ h. unless_owned user_id (s.sessions h) })

abbrev pub put_code :
    Text
    → EmailCodePurpose
    → Option EmailCodeRecord
    → (Text → EmailCodePurpose → Option EmailCodeRecord)
    → Text
    → EmailCodePurpose
    → Option EmailCodeRecord
put_code email purpose c m e p = if text_eq email e && same_purpose purpose p then c else m e p

-- `StoreEmailCode`
unfoldable pub store_email_code : EmailCodeRecord → AuthAction (Unit {0})
store_email_code c s =
    (ok tt, record s { email_codes = put_code c.email c.purpose (some c) s.email_codes })

-- `EmailCode`
unfoldable pub email_code : Text → EmailCodePurpose → AuthStore → Result EmailCodeRecord
email_code email purpose s = from_option failure (s.email_codes email purpose)

-- `DeleteEmailCode`
unfoldable pub delete_email_code : Text → EmailCodePurpose → AuthAction (Unit {0})
delete_email_code email purpose s =
    (ok tt, record s { email_codes = put_code email purpose none s.email_codes })

-- `StorePendingTOTPSetup`, `PendingTOTPSetup`, `DeletePendingTOTPSetup`
unfoldable pub store_pending_totp : Text → PendingTotpSetup → AuthAction (Unit {0})
store_pending_totp session_id x s =
    (ok tt, record s { pending_totp = put session_id x s.pending_totp })

unfoldable pub pending_totp_setup : Text → AuthStore → Result PendingTotpSetup
pending_totp_setup session_id s = from_option failure (s.pending_totp session_id)

unfoldable pub delete_pending_totp : Text → AuthAction (Unit {0})
delete_pending_totp session_id s =
    (ok tt, record s { pending_totp = drop_key session_id s.pending_totp })

abbrev pub put_replay :
    Text → Text → Option Time → (Text → Text → Option Time) → Text → Text → Option Time
put_replay user_id code_hash t m u c = if text_eq user_id u && text_eq code_hash c then t else m u c

-- `StoreTOTPReplay`
unfoldable pub store_totp_replay : Text → Text → Time → AuthAction (Unit {0})
store_totp_replay user_id code_hash expires_at s =
    (ok tt, record s { replays = put_replay user_id code_hash (some expires_at) s.replays })

-- `TOTPReplayExists`
unfoldable pub totp_replay_exists : Text → Text → Time → AuthAction Bool
totp_replay_exists user_id code_hash now s = elim (s.replays user_id code_hash) [
  | none ↦ (ok false, s)
  | some expires_at ↦
      if ltb now expires_at
      then (ok true, s)
      else (ok false, record s { replays = put_replay user_id code_hash none s.replays })
]

-- `FailedTOTPCount`: a missing counter reads as zero.
unfoldable pub failed_totp_count : Text → AuthStore → ℕ
failed_totp_count user_id s = or_default (s.failed_totps user_id) 0

-- `IncrementFailedTOTP`
unfoldable pub increment_failed_totp : Text → AuthAction (Unit {0})
increment_failed_totp user_id s = (
  ok tt,
  record s { failed_totps = put user_id (failed_totp_count user_id s + 1) s.failed_totps },
)

-- `ResetFailedTOTP`
unfoldable pub reset_failed_totp : Text → AuthAction (Unit {0})
reset_failed_totp user_id s = (ok tt, record s { failed_totps = drop_key user_id s.failed_totps })

abbrev pub no_throttle : LoginThrottle
no_throttle = record { email = []; failed_count = 0; locked_until = 0; updated_at = 0 }

-- `LoginThrottle`
unfoldable pub login_throttle : Text → AuthStore → LoginThrottle
login_throttle email s = or_default (s.throttles email) no_throttle

-- `StoreLoginThrottle`
unfoldable pub store_login_throttle : LoginThrottle → AuthAction (Unit {0})
store_login_throttle t s =
    if is_empty (trim_space t.email)
    then (err failure, s)
    else (ok tt, record s { throttles = put t.email t s.throttles })

-- `ResetLoginThrottle`
unfoldable pub reset_login_throttle : Text → AuthAction (Unit {0})
reset_login_throttle email s = (ok tt, record s { throttles = drop_key email s.throttles })
