-- ===== src/Auth/Sso.antt =====
-- backend/internal/auth/service.go and ids.go: logins with a token of an external provider.
pub mod Binding
use accounting.Auth.Environment.{Environment, SsoIdentity, normalize_email}
use accounting.Auth.Login.{AuthResult, Fresh, create_session}
use accounting.Auth.Model.{Time, UserRecord, active, is_active}
use accounting.Auth.Store.{
  AuthAction, AuthStore, create_user, default_base_currency, update_user, user_by_email, user_by_id,
}
use accounting.Prelude.{[], false, if◌then◌else◌, none, not, some, true, ◌==◌}
use accounting.Prelude.Result.{
  Result, check, err, failure, invalid_credentials, lift, ok, pure, raise, reads, ◌>>=◌, ◌>>◌,
}
use accounting.Prelude.Text.{Text, is_empty, text_eq, trim_space}

-- `normalizeExternalSSOUserID`
unfoldable pub normalize_external_sso_user_id : Environment → Text → Result Text
normalize_external_sso_user_id env subject =
    if is_empty (trim_space subject)
    then err failure
    else elim (env.parse_uuid (trim_space subject)) [
      | none ↦ err failure
      | some (version, id) ↦ if version == 7 then ok id else err failure
    ]

-- The subject is bound at the first login; another one is refused.
unfoldable pub bind_subject : UserRecord → Text → Time → AuthAction UserRecord
bind_subject r sso_user_id now =
    if is_empty (trim_space r.external_sso_subject)
    then update_user
        (record r { external_sso_subject = sso_user_id; user = record r.user { updated_at = now } })
    else if text_eq (trim_space r.external_sso_subject) sso_user_id
    then pure r
    else raise invalid_credentials

-- `createExternalSSOSession`
unfoldable pub create_external_sso_session :
    Environment → UserRecord → Text → Fresh → Time → AuthAction AuthResult
create_external_sso_session env r sso_user_id fresh now = do
  check (not (is_active r.user.status)) invalid_credentials
  bound ← bind_subject r sso_user_id now
  create_session env bound fresh now

abbrev pub provisioned : Text → Text → Time → UserRecord
provisioned sso_user_id email now = record {
  user = record {
    id = sso_user_id;
    email = email;
    status = active;
    email_verified = true;
    totp_enabled = false;
    base_currency = default_base_currency;
    created_at = now;
    updated_at = now;
  };
  password_hash = [];
  totp_secret = [];
  external_sso_subject = sso_user_id;
}

unfoldable pub provision : Environment → Text → Text → Fresh → Time → AuthAction AuthResult
provision env sso_user_id email fresh now = do
  check (not env.config.external_sso_auto_provision) failure
  created ← create_user (provisioned sso_user_id email now)
  create_session env created fresh now

-- The stored user of an identity: by id, or else by address.
unfoldable pub sso_user : Text → Text → AuthStore → Result UserRecord
sso_user sso_user_id email s = elim (user_by_id sso_user_id s) [
  | ok r ↦ ok r
  | err _ ↦ user_by_email email s
]

unfoldable pub sign_in_identity :
    Environment → Text → Text → Fresh → Time → Result UserRecord → AuthAction AuthResult
sign_in_identity env sso_user_id email fresh now (ok r) =
    create_external_sso_session env r sso_user_id fresh now
sign_in_identity env sso_user_id email fresh now (err _) = provision env sso_user_id email fresh now

unfoldable pub validate_identity : Environment → Text → Result SsoIdentity
validate_identity env token = elim env.validate_sso [
  | none ↦ err failure
  | some validate ↦ validate token
]

-- `LoginWithExternalSSO`
unfoldable pub login_with_external_sso : Environment → Text → Fresh → Time → AuthAction AuthResult
unfolding validate_identity
login_with_external_sso env token fresh now = do
  check (not env.config.external_sso_enabled) failure
  identity ← lift (validate_identity env token)
  email ← lift (normalize_email env identity.username)
  sso_user_id ← lift (normalize_external_sso_user_id env identity.subject)
  found ← reads (λ s. ok (sso_user sso_user_id email s))
  sign_in_identity env sso_user_id email fresh now found
