-- ===== src/Tests/Codes.antt =====
-- A code for a password reset, guessed and used.
use accounting.Auth.Codes.{confirm_password_reset, consume_email_code, hash_email_code, judge_code}
use accounting.Auth.Codes.Attempts.{IsWrong, consume_email_code_once, guess_all, guesses_bounded}
use accounting.Auth.Codes.Reset.{confirm_password_reset_lem}
use accounting.Auth.Environment.{normalize_email}
use accounting.Auth.Login.Sessions.{NoSessions}
use accounting.Auth.Model.{EmailCodeRecord, Time, User, UserRecord, password_reset}
use accounting.Auth.Store.{
  AuthStore, clone_user_record, delete_email_code, delete_sessions_by_user, email_code,
  reset_login_throttle, store_email_code, update_user, user_by_email,
}
use accounting.Prelude.{All, List, [], arith, none, refl, some, ◌<◌, ◌∷◌, ◌≡◌}
use accounting.Prelude.Result.{err, invalid_credentials, ok}
use accounting.Prelude.Text.{Text, text, text_eq, trim_left, trim_right, trim_space}
use accounting.Prelude.Text.Bytes.{byte_length}
use accounting.Tests.AuthData.{ann, ann_email, plain, users_ann}

abbrev reset_code : EmailCodeRecord
reset_code = record {
  email = ann_email;
  purpose = password_reset;
  code_hash = hash_email_code plain ann_email password_reset (text "42");
  expires_at = 100;
  created_at = 1;
  attempts = 0;
}

abbrev asked : AuthStore
asked = (store_email_code reset_code users_ann).1

asked-code : asked.email_codes ann_email password_reset ≡ some reset_code
unfolding store_email_code text_eq
asked-code = refl

abbrev wrong_guesses : List (Text × Time)
wrong_guesses = (text "1", 2) ∷ (text "2", 3) ∷ (text "3", 4) ∷ (text "4", 5) ∷ (text "5", 6) ∷ []

guesses-IsWrong : All (IsWrong plain ann_email password_reset reset_code.code_hash) wrong_guesses
unfolding hash_email_code text_eq trim_space trim_left trim_right
guesses-IsWrong = ((refl, refl), ((refl, refl), ((refl, refl), ((refl, refl), ((refl, refl), tt)))))

guesses_bounded_example :
    (consume_email_code plain ann_email password_reset
      (text "42")
      7
      (guess_all plain ann_email password_reset wrong_guesses asked)).0
    ≡ err invalid_credentials
guesses_bounded_example =
    guesses_bounded plain ann_email password_reset wrong_guesses reset_code asked (text "42") 7 refl
      refl refl asked-code guesses-IsWrong (omega arith)

right_guess : (consume_email_code plain ann_email password_reset (text "42") 7 asked).0 ≡ ok tt
unfolding consume_email_code email_code judge_code store_email_code delete_email_code
    hash_email_code text_eq trim_space trim_left trim_right
right_guess = refl

consume_email_code_once_example :
    ((c : EmailCodeRecord) × (asked.email_codes ann_email password_reset ≡ some c)
      × (7 < c.expires_at)
      × (hash_email_code plain ann_email password_reset (text "42") ≡ c.code_hash))
    × ((consume_email_code plain ann_email password_reset (text "42") 7 asked).1.email_codes
          ann_email password_reset
        ≡ none)
consume_email_code_once_example =
    consume_email_code_once plain ann_email password_reset (text "42") 7 asked right_guess

abbrev reset_ann : User
reset_ann = record ann.user { updated_at = 7 }

ann_reset :
    (confirm_password_reset plain ann_email (text "42") (text "new") 7 asked).0 ≡ ok reset_ann
unfolding confirm_password_reset normalize_email byte_length consume_email_code email_code
    judge_code store_email_code delete_email_code hash_email_code text_eq trim_space trim_left
    trim_right user_by_email clone_user_record update_user reset_login_throttle
    delete_sessions_by_user
ann_reset = refl

confirm_password_reset_lem_example :
    let t = (confirm_password_reset plain ann_email (text "42") (text "new") 7 asked).1 in
    NoSessions reset_ann.id t
    × ((email : Text) × (normalize_email plain ann_email ≡ ok email)
        × (t.email_codes email password_reset ≡ none))
    × ((x : UserRecord) × (t.users reset_ann.id ≡ some x)
        × (plain.hash_password (text "new") ≡ ok x.password_hash))
confirm_password_reset_lem_example =
    confirm_password_reset_lem plain ann_email (text "42") (text "new") 7 reset_ann asked ann_reset
