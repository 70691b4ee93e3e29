-- ===== src/Auth/Login.antt =====
-- backend/internal/auth/service.go: registration, login, sessions and profiles. Tokens and ids are
-- arguments, and one request reads the clock once.
pub mod Sessions
pub mod Factors
use accounting.Auth.Environment.{
  Environment, normalize_email, require_turnstile, validate_registration_domain,
}
use accounting.Auth.Model.{Session, Time, User, UserRecord, active, is_active, pending_verification}
use accounting.Auth.Store.{
  AuthAction, AuthStore, create_user, default_base_currency, delete_session,
  delete_sessions_by_user, reset_login_throttle, session_by_token_hash, store_session, update_user,
  user_by_email,
}
use accounting.Auth.Throttle.{record_failed_login, reject_locked_login, require_login_turnstile}
use accounting.Auth.Totp.{verify_totp_code}
use accounting.Prelude.{[], false, if◌then◌else◌, ltb, not, ◌&&◌, ◌+◌, ◌||◌}
use accounting.Prelude.Result.{
  Result, check, err, failure, invalid_credentials, lift, ok, or_fail, pure, raise, reads, ◌>>=◌,
  ◌>>◌,
}
use accounting.Prelude.Text.{Text, is_empty, trim_space}

-- What a request makes of randomness: a user id, a session id and a session token.
pub record Fresh : Type 0 where
  pub user_id : Text
  pub session_id : Text
  pub token : Text

-- `AuthResult`: with `TOTPRequired` there is no session.
pub data AuthResult : Type 0 where
  totp_required : User → AuthResult
  signed_in : User → Session → Text → AuthResult

pub record RegisterRequest : Type 0 where
  pub email : Text
  pub password : Text
  pub turnstile_token : Text
  pub remote_ip : Text

pub record LoginRequest : Type 0 where
  pub email : Text
  pub password : Text
  pub totp_code : Text
  pub turnstile_token : Text
  pub remote_ip : Text

abbrev pub new_user : Environment → Text → Text → Text → Time → UserRecord
new_user env email password_hash id now = record {
  user = record {
    id = id;
    email = email;
    status = if env.config.email_verification_required then pending_verification else active;
    email_verified = not env.config.email_verification_required;
    totp_enabled = false;
    base_currency = default_base_currency;
    created_at = now;
    updated_at = now;
  };
  password_hash = password_hash;
  totp_secret = [];
  external_sso_subject = [];
}

-- `Register`
unfoldable pub register : Environment → RegisterRequest → Fresh → Time → AuthAction User
register env r fresh now = do
  check (not env.config.email_register_enabled) failure
  lift (require_turnstile env r.turnstile_token r.remote_ip)
  email ← lift (normalize_email env r.email)
  lift (validate_registration_domain env email)
  password_hash ← lift (env.hash_password r.password)
  created ← create_user (new_user env email password_hash fresh.user_id now)
  pure created.user

-- `HashSessionToken`
unfoldable pub hash_session_token : Environment → Text → Text
hash_session_token env token = env.sha256_hex token

abbrev pub new_session : Environment → UserRecord → Fresh → Time → Session
new_session env r fresh now = record {
  id = fresh.session_id;
  user_id = r.user.id;
  user_email = r.user.email;
  status = r.user.status;
  created_at = now;
  expires_at = now + env.config.session_ttl;
}

-- `createSession`
unfoldable pub create_session : Environment → UserRecord → Fresh → Time → AuthAction AuthResult
create_session env r fresh now = do
  store_session (hash_session_token env fresh.token) (new_session env r fresh now)
  pure (signed_in r.user (new_session env r fresh now) fresh.token)

-- The password's hash is renewed where its parameters are out of date.
unfoldable pub upgrade_hash : Environment → Text → Time → UserRecord → AuthAction UserRecord
upgrade_hash env password now r = do
  stale ← lift (or_fail failure (env.needs_rehash r.password_hash))
  if not stale then pure r else do
    password_hash ← lift (env.hash_password password)
    update_user
        (record r { password_hash = password_hash; user = record r.user { updated_at = now } })

-- The end of `Login`, after every factor.
unfoldable pub sign_in :
    Environment → LoginRequest → Text → Fresh → Time → UserRecord → AuthAction AuthResult
sign_in env q email fresh now r = do
  upgraded ← upgrade_hash env q.password now r
  result ← create_session env upgraded fresh now
  reset_login_throttle email
  pure result

-- The second factor, where the user has one.
unfoldable pub second_factor :
    Environment → LoginRequest → Text → Fresh → Time → UserRecord → AuthAction AuthResult
second_factor env q email fresh now r =
    if r.user.totp_enabled && env.config.totp_enabled
    then (if is_empty (trim_space q.totp_code)
        then (do reset_login_throttle email; pure (totp_required r.user))
        else (do verify_totp_code env r q.totp_code now; sign_in env q email fresh now r))
    else sign_in env q email fresh now r

unfoldable pub fail_login : Text → Time → AuthAction AuthResult
fail_login email now = do record_failed_login email now; raise invalid_credentials

unfoldable pub check_password :
    Environment → LoginRequest → Text → Fresh → Time → Result UserRecord → AuthAction AuthResult
check_password env q email fresh now (err _) = fail_login email now
check_password env q email fresh now (ok r) = do
  matched ← lift (or_fail failure (env.verify_password q.password r.password_hash))
  if not matched || not (is_active r.user.status)
      then fail_login email now
      else second_factor env q email fresh now r

-- `Login`
unfoldable pub login : Environment → LoginRequest → Fresh → Time → AuthAction AuthResult
login env q fresh now = do
  check (not env.config.email_login_enabled) failure
  email ← lift (or_fail invalid_credentials (normalize_email env q.email))
  reads (reject_locked_login email now)
  reads (require_login_turnstile env email q.turnstile_token q.remote_ip)
  found ← reads (λ s. ok (user_by_email email s))
  check_password env q email fresh now found

-- `SessionFromToken`
unfoldable pub session_from_token : Environment → Text → Time → AuthStore → Result Session
session_from_token env token now s =
    if is_empty token
    then err failure
    else elim (session_by_token_hash (hash_session_token env token) s) [
      | err e ↦ err e
      | ok x ↦ if ltb now x.expires_at then ok x else err failure
    ]

-- `Logout`
unfoldable pub logout : Environment → Text → AuthAction (Unit {0})
logout env token = if is_empty token then pure tt else delete_session (hash_session_token env token)

-- `LogoutAll`
unfoldable pub logout_all : Text → AuthAction (Unit {0})
logout_all user_id = do
  check (is_empty (trim_space user_id)) invalid_credentials
  delete_sessions_by_user (trim_space user_id)
