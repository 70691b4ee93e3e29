-- ===== src/Auth.antt =====
-- backend/internal/auth: users, sessions, one-time email codes, login lockout and TOTP.
pub mod Model
pub mod Store
pub mod Environment
pub mod Throttle
pub mod Totp
pub mod Codes
pub mod Login
pub mod Sso
pub mod Enrolment
pub mod Profile
