-- ===== src/Tests/Logins.antt =====
-- Logins of one user.
use accounting.Auth.Environment.{
  Environment, SsoIdentity, minute, normalize_email, require_turnstile,
}
use accounting.Auth.Login.{
  Fresh, LoginRequest, check_password, create_session, fail_login, hash_session_token, login,
  new_session, second_factor, session_from_token, sign_in, signed_in, upgrade_hash,
}
use accounting.Auth.Login.Factors.{IsProven, login-IsProven}
use accounting.Auth.Login.Sessions.{IsSessionOf, create_session-session_from_token}
use accounting.Auth.Model.{Time, UserRecord}
use accounting.Auth.Sso.{
  bind_subject, create_external_sso_session, login_with_external_sso,
  normalize_external_sso_user_id, sign_in_identity, sso_user, validate_identity,
}
use accounting.Auth.Sso.Binding.{SignsIn, login_with_external_sso-SignsIn}
use accounting.Auth.Store.{
  AuthStore, clone_user_record, failed_totp_count, login_throttle, reset_failed_totp,
  reset_login_throttle, store_login_throttle, store_session, store_totp_replay, totp_replay_exists,
  user_by_email, user_by_id,
}
use accounting.Auth.Throttle.{
  double_duration, login_lock_duration, login_lock_free_failures, login_lock_max_duration,
  next_throttle, record_failed_login, reject_locked_login, require_login_turnstile,
}
use accounting.Auth.Throttle.Lockout.{
  AllFail, IsFailure, lockout, login_all, login_lock_duration_lem,
}
use accounting.Auth.Totp.{
  accept_code, check_code, check_unless_replayed, decrypt_totp_secret, hash_totp_code, is_encrypted,
  validate_totp_value, verify_totp_code,
}
use accounting.Auth.Totp.Replay.{check_all, no_replay}
use accounting.Prelude.{
  List, [], arith, false, if◌then◌else◌, inr, leb, min, refl, some, true, ◌*◌, ◌+◌, ◌-◌, ◌^◌, ◌∷◌,
  ◌≡◌, ◌≤◌,
}
use accounting.Prelude.Result.{err, invalid_credentials, login_locked, ok}
use accounting.Prelude.Table.{no_rows, put}
use accounting.Prelude.Text.{Text, is_empty, text, text_eq, trim_left, trim_right, trim_space}
use accounting.Prelude.Text.Bytes.{byte_length, has_prefix}
use accounting.Tests.AuthData.{ann, ann_email, ann_login, fresh, plain, settings, users_ann}

ann_email-normal : normalize_email plain ann_login.email ≡ ok ann_email
unfolding normalize_email trim_space trim_left trim_right byte_length
ann_email-normal = refl

ann_in :
    (login plain ann_login fresh 7 users_ann).0
    ≡ ok (signed_in ann.user (new_session plain ann fresh 7) fresh.token)
unfolding login normalize_email trim_space trim_left trim_right byte_length reject_locked_login
    login_throttle require_login_turnstile user_by_email clone_user_record text_eq check_password
    second_factor verify_totp_code failed_totp_count totp_replay_exists check_unless_replayed
    check_code decrypt_totp_secret is_encrypted has_prefix validate_totp_value accept_code
    store_totp_replay reset_failed_totp sign_in upgrade_hash create_session store_session
    reset_login_throttle hash_totp_code
ann_in = refl

login-IsProven_example :
    (email : Text) × (r : UserRecord) × IsProven plain ann_login email 7 r users_ann
    × IsSessionOf plain r fresh 7 ann.user
        (new_session plain ann fresh 7)
        fresh.token
        (login plain ann_login fresh 7 users_ann).1
login-IsProven_example =
    login-IsProven plain ann_login fresh 7 users_ann ann.user (new_session plain ann fresh 7)
      fresh.token ann_in

login_lock_duration_lem_example :
    login_lock_duration 9
    ≡ (if leb 9 login_lock_free_failures then 0 else min login_lock_max_duration (minute * 2 ^ 3))
login_lock_duration_lem_example = login_lock_duration_lem 9

-- Six logins with a wrong password.
abbrev wrong_login : LoginRequest
wrong_login = record ann_login { password = text "no" }

abbrev five_wrong : List (LoginRequest × Fresh × Time)
five_wrong =
    (wrong_login, fresh, 1)
    ∷ (wrong_login, fresh, 2)
    ∷ (wrong_login, fresh, 3)
    ∷ (wrong_login, fresh, 4)
    ∷ (wrong_login, fresh, 5)
    ∷ []

ann_fails :
    (now : Time) (s : AuthStore)
    → user_by_email ann_email s ≡ ok ann
    → (login_throttle ann_email s).locked_until ≤ now
    → IsFailure plain ann_email wrong_login now s
unfolding require_turnstile text_eq
ann_fails now s found free = record {
  named = ann_email-normal;
  unlocked = free;
  human = refl;
  wrong = inr (ann, false, found, refl, refl);
}

abbrev tried : AuthStore
tried = login_all plain five_wrong users_ann

five_wrong-AllFail :
    AllFail plain ann_email five_wrong users_ann × IsFailure plain ann_email wrong_login 7 tried
unfolding login_all login normalize_email trim_space trim_left trim_right byte_length
    reject_locked_login login_throttle require_login_turnstile user_by_email clone_user_record
    text_eq check_password fail_login record_failed_login store_login_throttle next_throttle
    login_lock_duration
five_wrong-AllFail = (
  (
    ann_fails 1 _ refl (omega arith),
    (
      ann_fails 2 _ refl (omega arith),
      (
        ann_fails 3 _ refl (omega arith),
        (ann_fails 4 _ refl (omega arith), (ann_fails 5 _ refl (omega arith), tt)),
      ),
    ),
  ),
  ann_fails 7 _ refl (omega arith),
)

ann_email-filled : is_empty (trim_space ann_email) ≡ false
unfolding trim_space trim_left trim_right
ann_email-filled = refl

no_failure_yet : (login_throttle ann_email users_ann).failed_count ≡ 0
unfolding login_throttle
no_failure_yet = refl

lock_six : login_lock_duration 6 ≡ minute
unfolding login_lock_duration double_duration
lock_six = refl

lockout_example :
    let after = (login plain wrong_login fresh 7 tried).1 in
    login plain ann_login fresh 20 after ≡ (
      err (
          login_locked (
            7
            + login_lock_duration ((login_throttle ann_email users_ann).failed_count + 5 + 1)
            - 20)),
      after,
    )
lockout_example =
    lockout plain five_wrong wrong_login ann_login ann_email fresh fresh 7 20 users_ann refl
      ann_email-filled five_wrong-AllFail.0 five_wrong-AllFail.1 (omega arith) ann_email-normal
      (rw no_failure_yet (rw lock_six (omega arith)))

ann_code : (verify_totp_code plain ann (text "123456") 7 users_ann).0 ≡ ok tt
unfolding verify_totp_code failed_totp_count totp_replay_exists check_unless_replayed check_code
    decrypt_totp_secret is_encrypted has_prefix validate_totp_value accept_code store_totp_replay
    reset_failed_totp trim_space trim_left trim_right text_eq hash_totp_code
ann_code = refl

abbrev another : List (UserRecord × Text × Time)
another = (ann, text "000000", 8) ∷ []

no_replay_example :
    (verify_totp_code plain ann
      (text "123456")
      9
      (check_all plain another (verify_totp_code plain ann (text "123456") 7 users_ann).1)).0
    ≡ err invalid_credentials
no_replay_example =
    no_replay plain ann (text "123456") 7 9 another users_ann ann_code (omega arith, tt)
      (omega arith)

abbrev locked : AuthStore
locked = record users_ann { failed_totps = put (text "ann") 5 no_rows }

create_session-session_from_token_example :
    session_from_token plain fresh.token 9 (create_session plain ann fresh 7 users_ann).1
    ≡ ok (new_session plain ann fresh 7)
create_session-session_from_token_example =
    create_session-session_from_token plain ann fresh 7 9 users_ann refl (omega arith)

-- A provider whose tokens are the addresses, and a user who is bound to the first.
abbrev with_sso : Environment
with_sso = record plain {
  config = record settings { external_sso_enabled = true };
  validate_sso = some (λ t. ok (record { subject = text "ann"; username = t }));
}

abbrev bound_ann : UserRecord
bound_ann = record ann { external_sso_subject = text "ann" }

abbrev users_bound : AuthStore
users_bound = record users_ann { users = put (text "ann") bound_ann no_rows }

ann_by_sso :
    (login_with_external_sso with_sso ann_email fresh 7 users_bound).0
    ≡ ok (signed_in ann.user (new_session with_sso ann fresh 7) fresh.token)
unfolding login_with_external_sso normalize_email byte_length trim_space trim_left trim_right
    normalize_external_sso_user_id sso_user user_by_id clone_user_record sign_in_identity
    create_external_sso_session bind_subject create_session store_session text_eq validate_identity
    hash_session_token
ann_by_sso = refl

login_with_external_sso-SignsIn_example :
    (who : SsoIdentity) × (email : Text) × (id : Text) × (validate_identity with_sso ann_email
      ≡ ok who)
    × (normalize_email with_sso who.username ≡ ok email)
    × (normalize_external_sso_user_id with_sso who.subject ≡ ok id)
    × SignsIn with_sso id email fresh 7 users_bound
        (login_with_external_sso with_sso ann_email fresh 7 users_bound)
login_with_external_sso-SignsIn_example =
    login_with_external_sso-SignsIn with_sso ann_email fresh 7 users_bound
      (signed_in ann.user (new_session with_sso ann fresh 7) fresh.token) ann_by_sso
