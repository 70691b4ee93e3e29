-- ===== src/Tests/AuthData.antt =====
-- Settings with every component played by a small function, and one user.
use accounting.Auth.Environment.{AuthConfig, Environment, minute}
use accounting.Auth.Login.{Fresh, LoginRequest}
use accounting.Auth.Model.{UserRecord, active}
use accounting.Auth.Store.{AuthStore, empty_auth}
use accounting.Prelude.{[], false, none, some, true, ◌*◌}
use accounting.Prelude.Result.{ok}
use accounting.Prelude.Table.{no_rows, put}
use accounting.Prelude.Text.{Text, text, text_eq}

abbrev pub settings : AuthConfig
settings = record {
  allowed_registration_domains = [];
  email_login_enabled = true;
  email_register_enabled = true;
  email_verification_required = false;
  email_verification_ttl = 10 * minute;
  external_sso_enabled = false;
  external_sso_auto_provision = false;
  session_ttl = 60 * minute;
  totp_enabled = true;
  totp_replay_cache_duration = 0;
  turnstile_enabled = false;
  turnstile_after_failure = false;
}

abbrev pub plain : Environment
plain = record {
  config = settings;
  parse_address = some;
  to_lower = λ t. t;
  equal_fold = text_eq;
  sha256_hex = λ t. t;
  totp_valid = λ code secret now. ok (text_eq code secret);
  hash_password = ok;
  verify_password = λ p h. ok (text_eq p h);
  needs_rehash = λ h. ok false;
  send_code = λ _ _ _. ok tt;
  verify_turnstile = λ _ _. ok tt;
  validate_sso = none;
  parse_uuid = λ t. some (7, t);
  generate_totp = λ t. ok (text "123456", t);
  keys = none;
}

abbrev pub ann_email : Text
ann_email = text "ann@x.y"

abbrev pub ann : UserRecord
ann = record {
  user = record {
    id = text "ann";
    email = ann_email;
    status = active;
    email_verified = true;
    totp_enabled = true;
    base_currency = text "USD";
    created_at = 1;
    updated_at = 1;
  };
  password_hash = text "pw";
  totp_secret = text "123456";
  external_sso_subject = [];
}

abbrev pub users_ann : AuthStore
users_ann = record empty_auth {
  users = put (text "ann") ann no_rows;
  ids_by_email = put ann_email (text "ann") no_rows;
}

abbrev pub fresh : Fresh
fresh = record { user_id = text "u1"; session_id = text "s1"; token = text "t1" }

abbrev pub ann_login : LoginRequest
ann_login = record {
  email = text " ann@x.y ";
  password = text "pw";
  totp_code = text "123456";
  turnstile_token = [];
  remote_ip = [];
}
