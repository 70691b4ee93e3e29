-- ===== src/Auth/Enrolment.antt =====
-- backend/internal/auth/totp.go: how a user turns the second factor on and off.
use accounting.Auth.Environment.{Environment}
use accounting.Auth.Model.{PendingTotpSetup, Time, UserRecord}
use accounting.Auth.Store.{
  AuthAction, delete_pending_totp, delete_sessions_by_user, failed_totp_count,
  increment_failed_totp, pending_totp_setup, reset_failed_totp, store_pending_totp, update_user,
  user_by_id,
}
use accounting.Auth.Totp.{
  decrypt_totp_secret, encrypt_totp_secret, totp_max_failures, totp_setup_ttl, validate_totp_value,
  verify_totp_code,
}
use accounting.Prelude.{Bool, [], false, if◌then◌else◌, leb, ltb, not, true, ◌+◌, ◌||◌}
use accounting.Prelude.Result.{
  Result, check, err, failure, invalid_credentials, lift, ok, or_fail, pure, raise, reads, ◌>>=◌,
  ◌>>◌,
}
use accounting.Prelude.Text.{Text, is_empty, text_eq}

pub record TotpSetup : Type 0 where
  pub secret : Text
  pub otpauth : Text
  pub expires_at : Time

-- `TOTPStatus`
unfoldable pub totp_status : Environment → Text → AuthAction Bool
totp_status env user_id = do
  check (is_empty user_id) invalid_credentials
  if not env.config.totp_enabled
      then pure false
      else do r ← reads (user_by_id user_id); pure r.user.totp_enabled

abbrev pub pending_setup : Text → Text → Text → Time → PendingTotpSetup
pending_setup user_id stored_secret otpauth now = record {
  user_id = user_id;
  secret = stored_secret;
  otpauth = otpauth;
  expires_at = now + totp_setup_ttl;
  created_at = now;
}

-- `SetupTOTP`
unfoldable pub setup_totp : Environment → Text → Text → Time → AuthAction TotpSetup
setup_totp env user_id session_id now = do
  check (not env.config.totp_enabled) failure
  check (is_empty user_id || is_empty session_id) invalid_credentials
  r ← reads (user_by_id user_id)
  key ← lift (env.generate_totp r.user.email)
  stored_secret ← lift (encrypt_totp_secret env user_id key.0)
  store_pending_totp session_id (pending_setup user_id stored_secret key.1 now)
  pure (record { secret = key.0; otpauth = key.1; expires_at = now + totp_setup_ttl })

-- A setup of another user, or one that is over, is thrown away.
unfoldable pub reject_setup : Text → Text → Time → PendingTotpSetup → AuthAction (Unit {0})
reject_setup user_id session_id now p =
    if not (text_eq p.user_id user_id) || not (ltb now p.expires_at)
    then (do delete_pending_totp session_id; raise invalid_credentials)
    else pure tt

-- A code that does not fit the secret is counted.
unfoldable pub judge_setup : Text → Result (Unit {0}) → AuthAction (Unit {0})
judge_setup user_id (ok _) = pure tt
judge_setup user_id (err e) = do increment_failed_totp user_id; raise e

-- The writes of `ConfirmTOTP`.
unfoldable pub enable_totp : Environment → Text → Text → Text → Time → AuthAction Bool
enable_totp env user_id session_id secret now = do
  r ← reads (user_by_id user_id)
  stored_secret ← lift (encrypt_totp_secret env r.user.id secret)
  update_user (record r {
    totp_secret = stored_secret;
    user = record r.user { totp_enabled = true; updated_at = now };
  })
  delete_pending_totp session_id
  reset_failed_totp user_id
  pure true

-- `ConfirmTOTP`
unfoldable pub confirm_totp : Environment → Text → Text → Text → Time → AuthAction Bool
confirm_totp env user_id session_id code now = do
  check (not env.config.totp_enabled) failure
  check (is_empty user_id || is_empty session_id) invalid_credentials
  p ← reads (λ s. or_fail invalid_credentials (pending_totp_setup session_id s))
  reject_setup user_id session_id now p
  failures ← reads (λ s. ok (failed_totp_count user_id s))
  check (leb totp_max_failures failures) invalid_credentials
  secret ← lift (decrypt_totp_secret env p.user_id p.secret)
  judge_setup user_id (validate_totp_value env secret code now)
  enable_totp env user_id session_id secret now

-- The rest of `DisableTOTP` for a user with a second factor.
unfoldable pub turn_off : Environment → UserRecord → Text → Time → AuthAction Bool
turn_off env r code now = do
  verify_totp_code env r code now
  update_user (record r {
    totp_secret = [];
    user = record r.user { totp_enabled = false; updated_at = now };
  })
  delete_sessions_by_user r.user.id
  pure false

-- `DisableTOTP`
unfoldable pub disable_totp : Environment → Text → Text → Time → AuthAction Bool
disable_totp env user_id code now = do
  check (not env.config.totp_enabled) failure
  check (is_empty user_id) invalid_credentials
  r ← reads (user_by_id user_id)
  if not r.user.totp_enabled then pure false else turn_off env r code now
