-- ===== src/Auth/Login/Factors.antt =====
-- What a login has checked when it opens a session.
use accounting.Auth.Environment.{Environment, normalize_email}
use accounting.Auth.Login.{
  AuthResult, Fresh, LoginRequest, check_password, fail_login, login, second_factor, sign_in,
  signed_in, totp_required,
}
use accounting.Auth.Login.Sessions.{IsSessionOf, sign_in-IsSessionOf}
use accounting.Auth.Model.{Session, Time, User, UserRecord, is_active}
use accounting.Auth.Store.{AuthStore, login_throttle, reset_login_throttle, user_by_email}
use accounting.Auth.Throttle.{record_failed_login, reject_locked_login, require_login_turnstile}
use accounting.Auth.Totp.{verify_totp_code}
use accounting.Prelude.{
  Bool, Bool-cases, ap, arith, false, inl, inr, not, refl, subst, sym, true, ◌&&◌, ◌||◌, ◌∙◌, ◌≡◌,
  ◌≤◌, ◌⊎◌,
}
use accounting.Prelude.Result.{
  Error, Result, check, err, failure, invalid_credentials, lift, ok, or_fail, pure, raise, reads,
}
use accounting.Prelude.Result.Steps.{>>=-step, >>=-trace}
use accounting.Prelude.Text.{Text, is_empty, trim_space}

-- The checks that a session needs, of the stored user.
pub record IsProven (env : Environment) (q : LoginRequest) (email : Text) (now : Time)
    (r : UserRecord) (s : AuthStore) : Type 0 where
  pub named : normalize_email env q.email ≡ ok email
  pub stored : user_by_email email s ≡ ok r
  pub unlocked : (login_throttle email s).locked_until ≤ now
  pub password : env.verify_password q.password r.password_hash ≡ ok true
  pub activated : is_active r.user.status ≡ true
  pub second :
      ((r.user.totp_enabled && env.config.totp_enabled) ≡ false)
      ⊎ ((verify_totp_code env r q.totp_code now s).0 ≡ ok tt)

or_fail-ok : {A : Type 0} (e : Error) (r : Result A) {a : A} → or_fail e r ≡ ok a → r ≡ ok a
or_fail-ok e (ok b) h = h
or_fail-ok e (err x) h = absurd (cc)

verified :
    (env : Environment) (q : LoginRequest) (r : UserRecord) (matched : Bool)
    → or_fail failure (env.verify_password q.password r.password_hash) ≡ ok matched
    → matched ≡ true
    → env.verify_password q.password r.password_hash ≡ ok true
verified env q r matched p m = or_fail-ok failure _ p ∙ ap ok m

module _ (env : Environment) (q : LoginRequest) (fresh : Fresh) (email : Text) (now : Time)
    (s : AuthStore) where
  -- The code has been checked where the user has a second factor, and the session is the user's.
  factor_checked :
      (r : UserRecord) (u : User) (x : Session) (t : Text)
      → (second_factor env q email fresh now r s).0 ≡ ok (signed_in u x t)
      → (((r.user.totp_enabled && env.config.totp_enabled) ≡ false)
          ⊎ ((verify_totp_code env r q.totp_code now s).0 ≡ ok tt))
        × IsSessionOf env r fresh now u x t (second_factor env q email fresh now r s).1
  unfolding second_factor
  factor_checked r u x t h = elim (Bool-cases (r.user.totp_enabled && env.config.totp_enabled)) [
    | inr single ↦ (
      inl single,
      rw single (sign_in-IsSessionOf env q email fresh now r s u x t (rw single at h)),
    )
    | inl double ↦ elim (Bool-cases (is_empty (trim_space q.totp_code))) [
      | inl asked ↦
          let first =
            >>=-step (reset_login_throttle email) (λ _. pure (totp_required r.user)) s
              (rw (double, asked) at h) in
          absurd (cc first.2)
      | inr given ↦
          let (_, good, step, rest) =
            >>=-trace (verify_totp_code env r q.totp_code now)
              (λ _. sign_in env q email fresh now r) s (rw (double, given) at h) in
          (
            inr good,
            rw (double, given)
                (subst
                  (λ (p : Result AuthResult × AuthStore). IsSessionOf env r fresh now u x t p.1)
                  (sym step) (sign_in-IsSessionOf env q email fresh now r _ u x t rest)),
          )
    ]
  ]

  password_checked :
      (found : Result UserRecord) (u : User) (x : Session) (t : Text)
      → (check_password env q email fresh now found s).0 ≡ ok (signed_in u x t)
      → (r : UserRecord) × (found ≡ ok r)
        × (env.verify_password q.password r.password_hash ≡ ok true)
        × (is_active r.user.status ≡ true)
        × ((second_factor env q email fresh now r s).0 ≡ ok (signed_in u x t))
        × (check_password env q email fresh now found s ≡ second_factor env q email fresh now r s)
  unfolding check_password fail_login
  password_checked (err e) u x t h =
      let last =
        >>=-step (record_failed_login email now) (λ _. raise {A = AuthResult} invalid_credentials) s
          h in
      absurd (cc last.2)
  password_checked (ok r) u x t h =
      let (matched, p, step, rest) =
        >>=-trace (lift (or_fail failure (env.verify_password q.password r.password_hash))) _ s h in
      elim (Bool-cases (not matched || not (is_active r.user.status))) [
        | inl bad ↦
            let last =
              >>=-step (record_failed_login email now)
                (λ _. raise {A = AuthResult} invalid_credentials) s (rw bad at rest) in
            absurd (cc last.2)
        | inr good ↦
            let next : check_password env q email fresh now (ok r) s
                ≡ second_factor env q email fresh now r s =
              step ∙ rw good refl in
            (
              r,
              refl,
              verified env q r matched p (ground arith),
              ground arith,
              rw good at rest,
              next,
            )
      ]

-- `Login` opens a session only for a stored user whose address is the normalised one of the request
-- and not locked, whose password has been verified, who is active and, with a second factor, whose
-- code has been accepted. The session is that user's, and so is the user who is answered: it has the
-- id and time of the request, expires after the configured time, and is stored under the hash of the
-- answered token.
pub login-IsProven :
    (env : Environment) (q : LoginRequest) (fresh : Fresh) (now : Time) (s : AuthStore) (u : User)
    (x : Session) (t : Text)
    → (login env q fresh now s).0 ≡ ok (signed_in u x t)
    → (email : Text) × (r : UserRecord) × IsProven env q email now r s
      × IsSessionOf env r fresh now u x t (login env q fresh now s).1
unfolding login reject_locked_login
login-IsProven env q fresh now s u x t h =
    let (_, on, i, a) = >>=-trace (check (not env.config.email_login_enabled) failure) _ s h in
    let (email, named, j, b) =
      >>=-trace (lift (or_fail invalid_credentials (normalize_email env q.email))) _ s a in
    let (_, open_now, k, c) = >>=-trace (reads (reject_locked_login email now)) _ s b in
    let (_, human, l, d) =
      >>=-trace (reads (require_login_turnstile env email q.turnstile_token q.remote_ip)) _ s c in
    let (r, found, word, live, e, m) =
      password_checked env q fresh email now s (user_by_email email s) u x t d in
    let (code, opened) = factor_checked env q fresh email now s r u x t e in
    (
      email,
      r,
      record {
        named = or_fail-ok invalid_credentials (normalize_email env q.email) named;
        stored = found;
        unlocked = ground arith;
        password = word;
        activated = live;
        second = code;
      },
      subst (λ (p : Result AuthResult × AuthStore). IsSessionOf env r fresh now u x t p.1)
          (sym (i ∙ j ∙ k ∙ l ∙ m)) opened,
    )
