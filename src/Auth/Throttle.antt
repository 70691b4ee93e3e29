-- ===== src/Auth/Throttle.antt =====
-- backend/internal/auth/service.go: the lockout of password logins. A counter of attempts is a
-- number: 2 ^ 63 attempts are out of reach.
pub mod Lockout
use accounting.Auth.Environment.{Environment, minute, require_turnstile}
use accounting.Auth.Model.{LoginThrottle, Time}
use accounting.Auth.Store.{AuthAction, AuthStore, login_throttle, store_login_throttle}
use accounting.Prelude.{if◌then◌else◌, leb, ltb, not, suc, zero, ℕ, ◌&&◌, ◌*◌, ◌+◌, ◌-◌, ◌/◌, ◌==◌}
use accounting.Prelude.Result.{Result, fail_if, login_locked, ok}
use accounting.Prelude.Text.{Text}

abbrev pub login_lock_free_failures : ℕ
login_lock_free_failures = 5

abbrev pub login_lock_base_duration : Time
login_lock_base_duration = minute

abbrev pub login_lock_max_duration : Time
login_lock_max_duration = 60 * minute

-- The loop of `loginLockDuration`, with the rounds left.
unfoldable pub double_duration : ℕ → Time → Time
double_duration zero duration =
    if ltb login_lock_max_duration duration then login_lock_max_duration else duration
double_duration (suc rounds) duration =
    let next = double_duration rounds (duration * 2) in
    if leb (login_lock_max_duration / 2) duration then login_lock_max_duration else next

-- `loginLockDuration`
unfoldable pub login_lock_duration : ℕ → Time
login_lock_duration failed_count =
    if leb failed_count login_lock_free_failures
    then 0
    else double_duration (failed_count - login_lock_free_failures - 1) login_lock_base_duration

-- `rejectLockedLogin`
unfoldable pub reject_locked_login : Text → Time → AuthStore → Result (Unit {0})
reject_locked_login email now s =
    let until = (login_throttle email s).locked_until in
    fail_if (ltb now until) (login_locked (until - now))

-- The throttle after one more failure.
unfoldable pub next_throttle : Text → Time → LoginThrottle → LoginThrottle
next_throttle email now t =
    let duration = login_lock_duration (t.failed_count + 1) in
    record {
      email = email;
      failed_count = t.failed_count + 1;
      locked_until = if ltb 0 duration then now + duration else 0;
      updated_at = now;
    }

-- `recordFailedLogin`
unfoldable pub record_failed_login : Text → Time → AuthAction (Unit {0})
record_failed_login email now s =
    store_login_throttle (next_throttle email now (login_throttle email s)) s

-- `requireLoginTurnstile`
unfoldable pub require_login_turnstile :
    Environment → Text → Text → Text → AuthStore → Result (Unit {0})
require_login_turnstile env email token remote_ip s =
    if not env.config.turnstile_enabled
    then ok tt
    else if env.config.turnstile_after_failure && (login_throttle email s).failed_count == 0
    then ok tt
    else require_turnstile env token remote_ip
