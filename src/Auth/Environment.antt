-- ===== src/Auth/Environment.antt =====
-- backend/internal/auth/service.go: the settings of the service, and what it calls from outside.
use accounting.Auth.Model.{EmailCodePurpose, Time}
use accounting.Prelude.{
  Bool, List, Option, [], false, if◌then◌else◌, ltb, none, not, some, ℕ, ◌==◌, ◌||◌, ◌∷◌,
}
use accounting.Prelude.Result.{Result, fail_if, failure, from_option, ok, or_fail}
use accounting.Prelude.Result.Pure.{◌>>=◌, ◌>>◌}
use accounting.Prelude.Text.{Text, is_empty, trim_space}
use accounting.Prelude.Text.Bytes.{byte_length}

-- `Config`, after the defaults of `NewService`.
pub record AuthConfig : Type 0 where
  pub allowed_registration_domains : List Text
  pub email_login_enabled : Bool
  pub email_register_enabled : Bool
  pub email_verification_required : Bool
  pub email_verification_ttl : Time
  pub external_sso_enabled : Bool
  pub external_sso_auto_provision : Bool
  pub session_ttl : Time
  pub totp_enabled : Bool
  pub totp_replay_cache_duration : Time
  pub turnstile_enabled : Bool
  pub turnstile_after_failure : Bool

-- `keyring.Ring`: encryption and decryption of a secret with associated data.
pub record Ring : Type 0 where
  pub encrypt : Text → Text → Result Text
  pub decrypt : Text → Text → Result Text

pub record SsoIdentity : Type 0 where
  pub subject : Text
  pub username : Text

-- `net/mail`, `strings.ToLower` and `EqualFold`, SHA-256 in hexadecimal, `pquerna/otp` at a time (a
-- check, and a new secret with its URL for an address), `google/uuid` (the version and the canonical
-- form), and the components behind interfaces: password hashes, the mail sender, Turnstile, the
-- validator of SSO tokens and the key ring.
pub record Environment : Type 0 where
  pub config : AuthConfig
  pub parse_address : Text → Option Text
  pub to_lower : Text → Text
  pub equal_fold : Text → Text → Bool
  pub sha256_hex : Text → Text
  pub totp_valid : Text → Text → Time → Result Bool
  pub hash_password : Text → Result Text
  pub verify_password : Text → Text → Result Bool
  pub needs_rehash : Text → Result Bool
  pub send_code : Text → EmailCodePurpose → Text → Result (Unit {0})
  pub verify_turnstile : Text → Text → Result (Unit {0})
  pub validate_sso : Option (Text → Result SsoIdentity)
  pub parse_uuid : Text → Option (ℕ × Text)
  pub generate_totp : Text → Result (Text × Text)
  pub keys : Option Ring

abbrev pub minute : Time
minute = 60_000_000_000

abbrev pub max_email_bytes : ℕ
max_email_bytes = 320

-- `normalizeEmail`
unfoldable pub normalize_email : Environment → Text → Result Text
normalize_email env email = do
  fail_if (is_empty (trim_space email) || ltb max_email_bytes (byte_length (trim_space email)))
      failure
  address ← from_option failure (env.parse_address (trim_space email))
  let normalized = env.to_lower (trim_space address)
  fail_if (is_empty normalized || ltb max_email_bytes (byte_length normalized)) failure
  ok normalized

-- `domain` behind the first `@`, as `strings.Cut` finds it.
unfoldable pub cut_at : ℕ → Text → Option Text
cut_at mark [] = none
cut_at mark (c ∷ s) = if c == mark then some s else cut_at mark s

any_fold : Environment → Text → List Text → Bool
any_fold env domain [] = false
any_fold env domain (d ∷ ds) = env.equal_fold domain d || any_fold env domain ds

check_domain : Environment → Text → List Text → Result (Unit {0})
unfolding any_fold
check_domain env email [] = ok tt
check_domain env email (d ∷ ds) = do
  domain ← from_option failure (cut_at b'@' email)
  fail_if (not (any_fold env domain (d ∷ ds))) failure

-- `validateRegistrationDomain`
unfoldable pub validate_registration_domain : Environment → Text → Result (Unit {0})
unfolding check_domain
validate_registration_domain env email =
    check_domain env email env.config.allowed_registration_domains

-- `requireTurnstile`
unfoldable pub require_turnstile : Environment → Text → Text → Result (Unit {0})
require_turnstile env token remote_ip =
    if env.config.turnstile_enabled
    then or_fail failure (env.verify_turnstile token remote_ip)
    else ok tt
