-- ===== src/Auth/Codes.antt =====
-- backend/internal/auth/email_codes.go: one-time codes for email verification and password reset.
-- The six digits of a new code are an argument, and one request reads the clock once.
pub mod Attempts
pub mod Reset
use accounting.Auth.Environment.{Environment, normalize_email}
use accounting.Auth.Model.{
  EmailCodePurpose, EmailCodeRecord, Time, User, UserRecord, active, email_verification, is_active,
  password_reset,
}
use accounting.Auth.Store.{
  AuthAction, delete_email_code, delete_sessions_by_user, email_code, reset_login_throttle,
  store_email_code, update_user, user_by_email,
}
use accounting.Ledger.Service.Members.Roles.{updated}
use accounting.Prelude.{
  Bool, Option, [], if◌then◌else◌, leb, ltb, none, not, some, true, ℕ, ◌&&◌, ◌++◌, ◌+◌, ◌∷◌,
}
use accounting.Prelude.Result.{
  Result, check, err, failure, invalid_credentials, lift, ok, or_fail, pure, raise, reads, ◌>>=◌,
  ◌>>◌,
}
use accounting.Prelude.Text.{Text, is_empty, text, text_eq, trim_space}
use accounting.RateLimiter.Attempts.{attempts}

abbrev pub max_email_code_attempts : ℕ
max_email_code_attempts = 5

abbrev pub purpose_text : EmailCodePurpose → Text
purpose_text email_verification = text "email_verification"
purpose_text password_reset = text "password_reset"

-- `hashEmailCode`
unfoldable pub hash_email_code : Environment → Text → EmailCodePurpose → Text → Text
hash_email_code env email purpose code =
    env.sha256_hex (email ++ (0 ∷ (purpose_text purpose ++ (0 ∷ trim_space code))))

pub record EmailCodeDelivery : Type 0 where
  pub email : Text
  pub code : Text
  pub user : Option User
  pub expires_at : Time

-- `createEmailCode`
unfoldable pub create_email_code :
    Environment → Text → EmailCodePurpose → Text → Time → AuthAction EmailCodeDelivery
create_email_code env email purpose code now = do
  store_email_code (record {
    email = email;
    purpose = purpose;
    code_hash = hash_email_code env email purpose code;
    expires_at = now + env.config.email_verification_ttl;
    created_at = now;
    attempts = 0;
  })
  pure (record {
    email = email;
    code = code;
    user = none;
    expires_at = now + env.config.email_verification_ttl;
  })

abbrev pub refuse : AuthAction (Unit {0}) → AuthAction (Unit {0})
refuse write = do write; raise invalid_credentials

-- A wrong guess: the code goes at the fifth.
unfoldable pub count_guess : Text → EmailCodePurpose → EmailCodeRecord → AuthAction (Unit {0})
count_guess email purpose c =
    if leb max_email_code_attempts (c.attempts + 1)
    then delete_email_code email purpose
    else store_email_code (record c { attempts = c.attempts + 1 })

unfoldable pub judge_code :
    Environment → Text → EmailCodePurpose → Text → Time → EmailCodeRecord → AuthAction (Unit {0})
judge_code env email purpose code now c =
    if not (ltb now c.expires_at)
    then refuse (delete_email_code email purpose)
    else if not (text_eq (hash_email_code env email purpose code) c.code_hash)
    then refuse (count_guess email purpose c)
    else delete_email_code email purpose

-- `consumeEmailCode`
unfoldable pub consume_email_code :
    Environment → Text → EmailCodePurpose → Text → Time → AuthAction (Unit {0})
consume_email_code env email purpose code now = do
  check (is_empty (trim_space code)) invalid_credentials
  c ← reads (λ s. or_fail invalid_credentials (email_code email purpose s))
  judge_code env email purpose code now c

-- What is answered for an address that gets no code.
abbrev pub silent_delivery : Environment → Text → Time → EmailCodeDelivery
silent_delivery env email now = record {
  email = email;
  code = [];
  user = none;
  expires_at = now + env.config.email_verification_ttl;
}

unfoldable pub deliver_code :
    Environment → Text → EmailCodePurpose → Text → Time → UserRecord → AuthAction EmailCodeDelivery
deliver_code env email purpose code now r = do
  d ← create_email_code env email purpose code now
  lift (or_fail failure (env.send_code email purpose code))
  pure (record d { user = some r.user })

-- `RequestEmailVerification` and `RequestPasswordReset` once the user has been looked up: a code goes
-- out where `wanted` holds of the record.
unfoldable pub deliver_if :
    Environment
    → Text
    → EmailCodePurpose
    → Text
    → Time
    → (UserRecord → Bool)
    → Result UserRecord
    → AuthAction EmailCodeDelivery
deliver_if env email purpose code now wanted (err _) = pure (silent_delivery env email now)
deliver_if env email purpose code now wanted (ok r) =
    if wanted r
    then deliver_code env email purpose code now r
    else pure (silent_delivery env email now)

abbrev pub needs_verification : UserRecord → Bool
needs_verification r = not (r.user.email_verified && is_active r.user.status)

-- `RequestEmailVerification`
unfoldable pub request_email_verification :
    Environment → Text → Text → Time → AuthAction EmailCodeDelivery
request_email_verification env address code now = do
  email ← lift (normalize_email env address)
  found ← reads (λ s. ok (user_by_email email s))
  deliver_if env email email_verification code now needs_verification found

-- `RequestPasswordReset`
unfoldable pub request_password_reset :
    Environment → Text → Text → Time → AuthAction EmailCodeDelivery
request_password_reset env address code now = do
  email ← lift (normalize_email env address)
  found ← reads (λ s. ok (user_by_email email s))
  deliver_if env email password_reset code now (λ r. is_active r.user.status) found

-- `ConfirmEmailVerification`
unfoldable pub confirm_email_verification : Environment → Text → Text → Time → AuthAction User
confirm_email_verification env address code now = do
  email ← lift (or_fail invalid_credentials (normalize_email env address))
  consume_email_code env email email_verification code now
  r ← reads (λ s. or_fail invalid_credentials (user_by_email email s))
  updated ← update_user (record r {
    user = record r.user { email_verified = true; status = active; updated_at = now };
  })
  pure updated.user

-- `ConfirmPasswordReset`
unfoldable pub confirm_password_reset : Environment → Text → Text → Text → Time → AuthAction User
confirm_password_reset env address code new_password now = do
  email ← lift (or_fail invalid_credentials (normalize_email env address))
  password_hash ← lift (env.hash_password new_password)
  consume_email_code env email password_reset code now
  r ← reads (λ s. or_fail invalid_credentials (user_by_email email s))
  check (not (is_active r.user.status)) invalid_credentials
  updated ←
      update_user
        (record r { password_hash = password_hash; user = record r.user { updated_at = now } })
  reset_login_throttle email
  delete_sessions_by_user updated.user.id
  pure updated.user
