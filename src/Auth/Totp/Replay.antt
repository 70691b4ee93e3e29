-- ===== src/Auth/Totp/Replay.antt =====
-- No code is accepted twice while it is valid, and a locked second factor stays locked.
use accounting.Auth.Environment.{Environment}
use accounting.Auth.Model.{Time, UserRecord}
use accounting.Auth.Store.{
  AuthStore, increment_failed_totp, reset_failed_totp, store_totp_replay, totp_replay_exists,
}
use accounting.Auth.Totp.{
  accept_code, check_code, check_unless_replayed, hash_totp_code, replay_retention,
  totp_validity_window, verify_totp_code,
}
use accounting.Prelude.{All, All-imp, List, [], arith, some, ◌+◌, ◌<◌, ◌∷◌, ◌≡◌, ◌≤◌}
use accounting.Prelude.Result.{err, invalid_credentials, ok}
use accounting.Prelude.Text.{Text, text_eq_iff, text_eq_refl}

module _ (env : Environment) (r : UserRecord) where
  -- An accepted code leaves its marker.
  accepted :
      (code : Text) (now : Time) (s : AuthStore)
      → (verify_totp_code env r code now s).0 ≡ ok tt
      → (verify_totp_code env r code now s).1.replays r.user.id (hash_totp_code env r.user.id code)
        ≡ some (now + replay_retention env)
  unfolding verify_totp_code check_unless_replayed check_code accept_code totp_replay_exists
      store_totp_replay reset_failed_totp increment_failed_totp
  accepted code now s h =
      ground (arith, text_eq_refl r.user.id, text_eq_refl (hash_totp_code env r.user.id code))

  -- Nothing is accepted while a marker stands or the counter has reached its limit.
  marked :
      (code : Text) (now t : Time) (s : AuthStore)
      → s.replays r.user.id (hash_totp_code env r.user.id code) ≡ some t
      → now < t
      → (verify_totp_code env r code now s).0 ≡ err invalid_credentials
  unfolding verify_totp_code check_unless_replayed check_code accept_code totp_replay_exists
      store_totp_replay reset_failed_totp increment_failed_totp
  marked code now t s there early = ground arith

module _ (env : Environment) where
  -- Checks of second factors, for whatever users, one after another.
  unfoldable pub check_all : List (UserRecord × Text × Time) → AuthStore → AuthStore
  check_all [] s = s
  check_all ((r, code, now) ∷ cs) s = check_all cs (verify_totp_code env r code now s).1

  keeps_marker :
      (r : UserRecord) (code : Text) (now t : Time) (u h : Text) (s : AuthStore)
      → s.replays u h ≡ some t
      → now < t
      → (verify_totp_code env r code now s).1.replays u h ≡ some t
  unfolding verify_totp_code check_unless_replayed check_code accept_code totp_replay_exists
      store_totp_replay reset_failed_totp increment_failed_totp
  keeps_marker r code now t u h s there early =
      ground (arith, text_eq_iff r.user.id u, text_eq_iff (hash_totp_code env r.user.id code) h)

  marker_stays :
      (cs : List (UserRecord × Text × Time)) (t : Time) (u h : Text) (s : AuthStore)
      → s.replays u h ≡ some t
      → All (λ c. c.2 < t) cs
      → (check_all cs s).replays u h ≡ some t
  unfolding check_all
  marker_stays [] t u h s there early = there
  marker_stays ((r, code, now) ∷ cs) t u h s there early =
      marker_stays cs t u h _ (keeps_marker r code now t u h s there early.0) early.1

  -- A code that `verifyTOTPCode` has accepted is refused by it for as long as the code is valid,
  -- whatever other calls of `verifyTOTPCode` come in between.
  pub no_replay :
      (r : UserRecord) (code : Text) (now later : Time) (cs : List (UserRecord × Text × Time))
      (s : AuthStore)
      → (verify_totp_code env r code now s).0 ≡ ok tt
      → All (λ c. c.2 < now + totp_validity_window) cs
      → later < now + totp_validity_window
      → (verify_totp_code env r code later (check_all cs (verify_totp_code env r code now s).1)).0
        ≡ err invalid_credentials
  no_replay r code now later cs s h between soon =
      let t = now + replay_retention env in
      let long : now + totp_validity_window ≤ t = ground arith in
      marked env r code later t _
        (marker_stays cs t r.user.id (hash_totp_code env r.user.id code) _
          (accepted env r code now s h)
          (All-imp (λ (c : UserRecord × Text × Time). c.2 < now + totp_validity_window)
            (λ c. c.2 < t) cs (λ c e. omega arith) between))
        (omega arith)
