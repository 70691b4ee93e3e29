-- ===== src/Auth/Codes/Reset.antt =====
-- What a password reset leaves behind.
use accounting.Auth.Codes.{confirm_password_reset, consume_email_code}
use accounting.Auth.Codes.Attempts.{consume_email_code_once}
use accounting.Auth.Environment.{Environment, normalize_email}
use accounting.Auth.Login.Sessions.{
  NoSessions, delete_sessions_by_user-NoSessions, update_user_answer,
}
use accounting.Auth.Model.{Time, User, UserRecord, password_reset}
use accounting.Auth.Store.{
  AuthAction, AuthStore, delete_sessions_by_user, reset_login_throttle, update_user, user_by_email,
}
use accounting.Ledger.Service.Members.Roles.{updated}
use accounting.Prelude.{ap, arith, inl, inr, none, some, subst, sym, ◌∙◌, ◌≡◌}
use accounting.Prelude.Result.{Result, Result-cases, ok, pure, ◌>>=◌, ◌>>◌}
use accounting.Prelude.Result.Steps.{>>=-run}
use accounting.Prelude.Table.{drop_key}
use accounting.Prelude.Text.{Text}

-- The writes of a reset, once the code has been consumed and the user found.
reset_writes : Text → UserRecord → AuthAction User
reset_writes email r = do
  updated ← update_user r
  reset_login_throttle email
  delete_sessions_by_user updated.user.id
  pure updated.user

ok_eq : {A : Type 0} {a b : A} → ok a ≡ ok b → a ≡ b
ok_eq h = cc

update_user-email_codes :
    (r : UserRecord) (s : AuthStore) → (update_user r s).1.email_codes ≡ s.email_codes
unfolding update_user
update_user-email_codes r s = ground arith

reset_writes_lem :
    (email : Text) (r : UserRecord) (u : User) (s : AuthStore)
    → (reset_writes email r s).0 ≡ ok u
    → NoSessions u.id (reset_writes email r s).1
      × ((reset_writes email r s).1.email_codes ≡ s.email_codes)
      × ((x : UserRecord) × ((reset_writes email r s).1.users u.id ≡ some x)
          × (x.password_hash ≡ r.password_hash))
unfolding reset_writes reset_login_throttle delete_sessions_by_user
reset_writes_lem email r u s h =
    let (x, e, run) = >>=-run (update_user r) _ s h in
    let (id, hash, stored) = update_user_answer r x s e in
    let same : x.user ≡ u = ok_eq (ap (λ p. p.0) (sym run) ∙ h) in
    let before : AuthStore = record (update_user r s).1 {
      throttles = drop_key email (update_user r s).1.throttles;
    } in
    let closed = (delete_sessions_by_user x.user.id before).1 in
    let none_left : NoSessions u.id closed =
      subst (λ (v : User). NoSessions v.id closed) same
        (delete_sessions_by_user-NoSessions x.user.id before) in
    subst
      (λ (p : Result User × AuthStore).
        NoSessions u.id p.1
        × (p.1.email_codes ≡ s.email_codes)
        × ((y : UserRecord) × (p.1.users u.id ≡ some y) × (y.password_hash ≡ r.password_hash)))
      (sym run)
      (
        none_left,
        update_user-email_codes r s,
        (
          x,
          subst (λ i. (update_user r s).1.users i ≡ some x) (sym id ∙ ap (λ v. v.id) same) stored,
          hash,
        ),
      )

reset_steps :
    (env : Environment) (address code new_password : Text) (now : Time) (u : User) (s : AuthStore)
    → (confirm_password_reset env address code new_password now s).0 ≡ ok u
    → (email : Text) × (password_hash : Text) × (r : UserRecord) × (normalize_email env address
        ≡ ok email)
      × (env.hash_password new_password ≡ ok password_hash)
      × ((consume_email_code env email password_reset code now s).0 ≡ ok tt)
      × (confirm_password_reset env address code new_password now s
          ≡ reset_writes email
              (record r { password_hash = password_hash })
              (consume_email_code env email password_reset code now s).1)
unfolding confirm_password_reset reset_writes
reset_steps env address code new_password now u s h =
    elim (Result-cases (normalize_email env address)) [
      | inr (e, bad) ↦ absurd (ground arith)
      | inl (email, named) ↦ elim (Result-cases (env.hash_password new_password)) [
        | inr (e, bad) ↦ absurd (ground arith)
        | inl (password_hash, hashed) ↦
            elim (Result-cases (consume_email_code env email password_reset code now s).0) [
              | inr (e, bad) ↦ absurd (ground arith)
              | inl (_, used) ↦
                  elim (Result-cases (
                    user_by_email email
                      (consume_email_code env email password_reset code now s).1)) [
                        | inr (e, bad) ↦ absurd (ground arith)
                        | inl (r, found) ↦ (
                          email,
                          password_hash,
                          record r { user = record r.user { updated_at = now } },
                          named,
                          hashed,
                          used,
                          ground arith,
                        )
                      ]
            ]
      ]
    ]

-- A password reset that is answered has used up the code of the address, has closed every session of
-- the user, and has stored the hash of the new password.
pub confirm_password_reset_lem :
    (env : Environment) (address code new_password : Text) (now : Time) (u : User) (s : AuthStore)
    → let t = (confirm_password_reset env address code new_password now s).1 in
      (confirm_password_reset env address code new_password now s).0 ≡ ok u
      → NoSessions u.id t
        × ((email : Text) × (normalize_email env address ≡ ok email)
            × (t.email_codes email password_reset ≡ none))
        × ((x : UserRecord) × (t.users u.id ≡ some x)
            × (env.hash_password new_password ≡ ok x.password_hash))
confirm_password_reset_lem env address code new_password now u s h =
    let (email, password_hash, r, named, hashed, used, run) =
      reset_steps env address code new_password now u s h in
    let s' = (consume_email_code env email password_reset code now s).1 in
    let (closed, codes, (x, stored, hash)) =
      reset_writes_lem email (record r { password_hash = password_hash }) u s'
        (ap (λ p. p.0) (sym run) ∙ h) in
    subst
      (λ (p : Result User × AuthStore).
        NoSessions u.id p.1
        × ((e : Text) × (normalize_email env address ≡ ok e)
            × (p.1.email_codes e password_reset ≡ none))
        × ((y : UserRecord) × (p.1.users u.id ≡ some y)
            × (env.hash_password new_password ≡ ok y.password_hash)))
      (sym run)
      (
        closed,
        (
          email,
          named,
          ap (λ m. m email password_reset) codes
              ∙ (consume_email_code_once env email password_reset code now s used).1,
        ),
        (x, stored, hashed ∙ ap ok (sym hash)),
      )
