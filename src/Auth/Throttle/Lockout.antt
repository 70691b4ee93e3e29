-- ===== src/Auth/Throttle/Lockout.antt =====
-- How long a login is locked, and what a locked login does.
use accounting.Auth.Environment.{Environment, minute, normalize_email, require_turnstile}
use accounting.Auth.Login.{AuthResult, Fresh, LoginRequest, check_password, fail_login, login}
use accounting.Auth.Model.{Time, UserRecord, is_active}
use accounting.Auth.Store.{AuthStore, login_throttle, store_login_throttle, user_by_email}
use accounting.Auth.Throttle.{
  double_duration, login_lock_duration, login_lock_free_failures, login_lock_max_duration,
  next_throttle, record_failed_login, reject_locked_login, require_login_turnstile,
}
use accounting.Prelude.{
  Bool, Bool-cases, List, [], ap, arith, false, if◌then◌else◌, inl, inr, leb, length, min, not,
  refl, suc, true, zero, ℕ, ◌&&◌, ◌*◌, ◌+◌, ◌-◌, ◌/◌, ◌<◌, ◌^◌, ◌||◌, ◌∙◌, ◌∷◌, ◌≡◌, ◌≤◌, ◌⊎◌,
}
use accounting.Prelude.Result.{Error, Result, err, invalid_credentials, login_locked, ok}
use accounting.Prelude.Text.{Text, is_empty, text_eq_refl, trim_space}
use native.Mathlib.Nat.{pow-suc}

pow_pos : (n : ℕ) → 0 < 2 ^ n
pow_pos zero = omega arith
pow_pos (suc n) = simp pow-suc (omega (arith, pow_pos n))

double_duration_lem : (k d : ℕ) → double_duration k d ≡ min login_lock_max_duration (d * 2 ^ k)
unfolding double_duration
double_duration_lem zero d = grind arith
double_duration_lem (suc k) d = elim (Bool-cases (leb (login_lock_max_duration / 2) d)) [
  | inl long ↦ grind (arith, pow-suc 2 k, pow_pos k)
  | inr short ↦ grind (arith, pow-suc 2 k, double_duration_lem k (d * 2))
]

-- The lock after `n` failures in a row: none up to five, then a minute, doubled by each further
-- failure, and an hour at most.
pub login_lock_duration_lem :
    (n : ℕ)
    → login_lock_duration n ≡ (
        if leb n login_lock_free_failures
        then 0
        else min login_lock_max_duration (minute * 2 ^ (n - login_lock_free_failures - 1)))
unfolding login_lock_duration
login_lock_duration_lem n = rw (double_duration_lem (n - login_lock_free_failures - 1) minute) refl

lock_positive : (n : ℕ) → login_lock_free_failures < n → 0 < login_lock_duration n
lock_positive n h =
    grind (arith, login_lock_duration_lem n, pow_pos (n - login_lock_free_failures - 1))

recorded :
    (email : Text) (now : Time) (s : AuthStore)
    → is_empty (trim_space email) ≡ false
    → login_lock_free_failures ≤ (login_throttle email s).failed_count
    → (login_throttle email (record_failed_login email now s).1).locked_until
      ≡ now + login_lock_duration ((login_throttle email s).failed_count + 1)
unfolding record_failed_login next_throttle store_login_throttle login_throttle
recorded email now s filled many =
    ground (arith, text_eq_refl email, lock_positive ((login_throttle email s).failed_count + 1))

counted :
    (email : Text) (now : Time) (s : AuthStore)
    → is_empty (trim_space email) ≡ false
    → (login_throttle email (record_failed_login email now s).1).failed_count
      ≡ (login_throttle email s).failed_count + 1
unfolding record_failed_login next_throttle store_login_throttle login_throttle
counted email now s filled = ground (arith, text_eq_refl email)

locked_login :
    (env : Environment) (q : LoginRequest) (fresh : Fresh) (email : Text) (now : Time)
    (s : AuthStore)
    → env.config.email_login_enabled ≡ true
    → normalize_email env q.email ≡ ok email
    → now < (login_throttle email s).locked_until
    → login env q fresh now s
      ≡ (err (login_locked ((login_throttle email s).locked_until - now)), s)
unfolding login reject_locked_login
locked_login env q fresh email now s on named locked = ground arith

-- A login with the given address and a password that is wrong, or whose user is unknown or not
-- active, before which Turnstile, if it is on, is passed and the address is not locked.
pub record IsFailure (env : Environment) (email : Text) (q : LoginRequest) (now : Time)
    (s : AuthStore) : Type 0 where
  pub named : normalize_email env q.email ≡ ok email
  pub unlocked : (login_throttle email s).locked_until ≤ now
  pub human : require_turnstile env q.turnstile_token q.remote_ip ≡ ok tt
  pub wrong :
      ((e : Error) × (user_by_email email s ≡ err e))
      ⊎ ((r : UserRecord) × (matched : Bool) × (user_by_email email s ≡ ok r)
          × (env.verify_password q.password r.password_hash ≡ ok matched)
          × ((matched && is_active r.user.status) ≡ false))

not_both : (a b : Bool) → (a && b) ≡ false → (not a || not b) ≡ true
not_both true true h = absurd (cc)
not_both true false h = refl
not_both false b h = refl

-- Such a login is answered as wrong, and is counted.
failed_login :
    (env : Environment) (q : LoginRequest) (fresh : Fresh) (email : Text) (now : Time)
    (s : AuthStore)
    → env.config.email_login_enabled ≡ true
    → is_empty (trim_space email) ≡ false
    → IsFailure env email q now s
    → login env q fresh now s ≡ (err invalid_credentials, (record_failed_login email now s).1)
unfolding login reject_locked_login require_login_turnstile check_password fail_login
    record_failed_login store_login_throttle next_throttle
failed_login env q fresh email now s on filled f = elim f.wrong [
  | inl (e, unknown) ↦ ground (arith, f.named, f.unlocked, f.human)
  | inr (r, matched, found, checked, bad) ↦
      ground (arith, f.named, f.unlocked, f.human, not_both matched (is_active r.user.status) bad)
]

module _ (env : Environment) where
  -- Logins, one after another.
  unfoldable pub login_all : List (LoginRequest × Fresh × Time) → AuthStore → AuthStore
  login_all [] s = s
  login_all ((q, fresh, now) ∷ as_) s = login_all as_ (login env q fresh now s).1

  -- Each of them fails.
  abbrev pub AllFail : Text → List (LoginRequest × Fresh × Time) → AuthStore → Type 0
  AllFail email [] s = Unit
  AllFail email ((q, fresh, now) ∷ as_) s =
      IsFailure env email q now s × AllFail email as_ (login env q fresh now s).1

  count-login_all :
      (email : Text) (as_ : List (LoginRequest × Fresh × Time)) (s : AuthStore)
      → env.config.email_login_enabled ≡ true
      → is_empty (trim_space email) ≡ false
      → AllFail email as_ s
      → (login_throttle email (login_all as_ s)).failed_count
        ≡ (login_throttle email s).failed_count + length as_
  unfolding login_all
  count-login_all email [] s on filled f = omega arith
  count-login_all email ((q, fresh, now) ∷ as_) s on filled f =
      let one = failed_login env q fresh email now s on filled f.0 in
      omega (
        arith,
        count-login_all email as_ (login env q fresh now s).1 on filled f.1,
        ap (λ (p : Result AuthResult × AuthStore). (login_throttle email p.1).failed_count) one
            ∙ counted email now s filled,
      )

  -- Email login is on, and logins fail in a row for one address, from whatever store: the password is
  -- wrong, or the user unknown or not active, and each comes past Turnstile, where it is on, while the
  -- address is not locked. If the last of them is at least the sixth that is counted, every login for
  -- that address is refused for as long as the lock lasts, which runs from the last one: with any
  -- password and code, without a change of the store, and with the time that is left.
  pub lockout :
      (failed : List (LoginRequest × Fresh × Time)) (last q : LoginRequest) (email : Text)
      (fresh fresh_last : Fresh) (now later : Time) (s : AuthStore)
      → env.config.email_login_enabled ≡ true
      → is_empty (trim_space email) ≡ false
      → AllFail email failed s
      → IsFailure env email last now (login_all failed s)
      → login_lock_free_failures ≤ (login_throttle email s).failed_count + length failed
      → normalize_email env q.email ≡ ok email
      → later
        < now + login_lock_duration ((login_throttle email s).failed_count + length failed + 1)
      → let after = (login env last fresh_last now (login_all failed s)).1 in
        login env q fresh later after ≡ (
          err (
              login_locked (
                now
                + login_lock_duration ((login_throttle email s).failed_count + length failed + 1)
                - later)),
          after,
        )
  lockout failed last q email fresh fresh_last now later s on filled all_fail fails many named
        soon =
      let s' = login_all failed s in
      let count = count-login_all email failed s on filled all_fail in
      let step = failed_login env last fresh_last email now s' on filled fails in
      let until =
        ap (λ (p : Result AuthResult × AuthStore). (login_throttle email p.1).locked_until) step
        ∙ recorded email now s' filled (rw count many)
        ∙ ap (λ n. now + login_lock_duration (n + 1)) count in
      let after = (login env last fresh_last now s').1 in
      locked_login env q fresh email later after on named (rw until soon)
      ∙ ap (λ (t : Time). (err (login_locked (t - later)), after)) until
