-- ===== src/Auth/Model.antt =====
-- backend/internal/auth/model.go: the records of users, sessions, codes and throttles. `Time` is
-- nanoseconds since the zero time, and so is a duration.
use accounting.Prelude.{Bool, false, true, ℕ}
use accounting.Prelude.Text.{Text}

abbrev pub Time : Type 0
Time = ℕ

pub data UserStatus : Type 0 where
  pending_verification active : UserStatus
  other_status : Text → UserStatus

pub record User : Type 0 where
  pub id : Text
  pub email : Text
  pub status : UserStatus
  pub email_verified : Bool
  pub totp_enabled : Bool
  pub base_currency : Text
  pub created_at : Time
  pub updated_at : Time

pub record UserRecord : Type 0 where
  pub user : User
  pub password_hash : Text
  pub totp_secret : Text
  pub external_sso_subject : Text

pub record Session : Type 0 where
  pub id : Text
  pub user_id : Text
  pub user_email : Text
  pub status : UserStatus
  pub expires_at : Time
  pub created_at : Time

pub record LoginThrottle : Type 0 where
  pub email : Text
  pub failed_count : ℕ
  pub locked_until : Time
  pub updated_at : Time

pub data EmailCodePurpose : Type 0 where
  email_verification password_reset : EmailCodePurpose

-- `UsedAt` is never written and left out.
pub record EmailCodeRecord : Type 0 where
  pub email : Text
  pub purpose : EmailCodePurpose
  pub code_hash : Text
  pub expires_at : Time
  pub created_at : Time
  pub attempts : ℕ

pub record PendingTotpSetup : Type 0 where
  pub user_id : Text
  pub secret : Text
  pub otpauth : Text
  pub expires_at : Time
  pub created_at : Time

abbrev pub is_active : UserStatus → Bool
is_active active = true
is_active _ = false

abbrev pub same_purpose : EmailCodePurpose → EmailCodePurpose → Bool
same_purpose email_verification email_verification = true
same_purpose password_reset password_reset = true
same_purpose _ _ = false
