-- ===== src/Auth/Totp.antt =====
-- backend/internal/auth/totp.go: time-based one-time passwords, with their failure counter and the
-- markers against replay. One request reads the clock once.
pub mod Replay
use accounting.Auth.Environment.{Environment, minute}
use accounting.Auth.Model.{Time, UserRecord}
use accounting.Auth.Store.{
  AuthAction, failed_totp_count, increment_failed_totp, reset_failed_totp, store_totp_replay,
  totp_replay_exists,
}
use accounting.Prelude.{
  Bool, [], false, if◌then◌else◌, leb, ltb, none, not, some, true, ℕ, ◌&&◌, ◌*◌, ◌++◌, ◌+◌, ◌==◌,
  ◌||◌, ◌∷◌,
}
use accounting.Prelude.Result.{
  Result, check, err, failure, invalid_credentials, lift, ok, or_fail, raise, reads, ◌>>=◌, ◌>>◌,
}
use accounting.Prelude.Text.{Text, is_empty, text, trim_space}
use accounting.Prelude.Text.Bytes.{has_prefix}

abbrev pub totp_max_failures : ℕ
totp_max_failures = 5

abbrev pub second : Time
second = 1_000_000_000

abbrev pub totp_setup_ttl : Time
totp_setup_ttl = 10 * minute

-- `totpPeriodSeconds * (2*totpSkew + 1) * time.Second`
abbrev pub totp_validity_window : Time
totp_validity_window = 30 * (2 * 1 + 1) * second

-- `hashTOTPCode`
unfoldable pub hash_totp_code : Environment → Text → Text → Text
hash_totp_code env user_id code = env.sha256_hex (user_id ++ (0 ∷ trim_space code))

-- `keyring.IsEncrypted`
unfoldable pub is_encrypted : Text → Bool
is_encrypted value = has_prefix (text "enc:v1:") (trim_space value)

unfoldable pub totp_secret_aad : Text → Text
totp_secret_aad user_id = text "auth.totp:" ++ trim_space user_id

-- `encryptTOTPSecret`
unfoldable pub encrypt_totp_secret : Environment → Text → Text → Result Text
encrypt_totp_secret env user_id secret = elim env.keys [
  | none ↦ ok (trim_space secret)
  | some ring ↦
      if is_empty (trim_space secret) || is_encrypted (trim_space secret)
      then ok (trim_space secret)
      else ring.encrypt (trim_space secret) (totp_secret_aad user_id)
]

-- `decryptTOTPSecret`
unfoldable pub decrypt_totp_secret : Environment → Text → Text → Result Text
decrypt_totp_secret env user_id secret =
    if is_empty (trim_space secret) || not (is_encrypted (trim_space secret))
    then ok (trim_space secret)
    else elim env.keys [
      | none ↦ err failure
      | some ring ↦ ring.decrypt (trim_space secret) (totp_secret_aad user_id)
    ]

-- `validateTOTPValue`
unfoldable pub validate_totp_value : Environment → Text → Text → Time → Result (Unit {0})
validate_totp_value env secret code now = elim (env.totp_valid (trim_space code) secret now) [
  | err _ ↦ err failure
  | ok true ↦ ok tt
  | ok false ↦ err invalid_credentials
]

abbrev pub replay_retention : Environment → Time
replay_retention env =
    if ltb env.config.totp_replay_cache_duration totp_validity_window
    then totp_validity_window
    else env.config.totp_replay_cache_duration

-- A failed check is counted, and its error is the answer.
unfoldable pub accept_code :
    Environment → Text → Text → Time → Result (Unit {0}) → AuthAction (Unit {0})
accept_code env user_id code now (err e) = do increment_failed_totp user_id; raise e
accept_code env user_id code now (ok _) = do
  store_totp_replay user_id (hash_totp_code env user_id code) (now + replay_retention env)
  reset_failed_totp user_id

unfoldable pub check_code : Environment → UserRecord → Text → Time → AuthAction (Unit {0})
check_code env r code now = do
  secret ← lift (or_fail failure (decrypt_totp_secret env r.user.id r.totp_secret))
  accept_code env r.user.id code now (validate_totp_value env secret code now)

unfoldable pub check_unless_replayed :
    Environment → UserRecord → Text → Time → Bool → AuthAction (Unit {0})
check_unless_replayed env r code now true = do
  increment_failed_totp r.user.id
  raise invalid_credentials
check_unless_replayed env r code now false = check_code env r code now

-- `verifyTOTPCode`
unfoldable pub verify_totp_code : Environment → UserRecord → Text → Time → AuthAction (Unit {0})
verify_totp_code env r code now = do
  failures ← reads (λ s. ok (failed_totp_count r.user.id s))
  check (leb totp_max_failures failures) invalid_credentials
  replayed ← totp_replay_exists r.user.id (hash_totp_code env r.user.id code) now
  check_unless_replayed env r code now replayed
