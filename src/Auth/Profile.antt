-- ===== src/Auth/Profile.antt =====
-- backend/internal/auth/service.go and currency.go: profiles.
use accounting.Auth.Environment.{Environment, normalize_email}
use accounting.Auth.Model.{Time, User, UserRecord, is_active}
use accounting.Auth.Store.{AuthAction, AuthStore, update_user, user_by_email, user_by_id}
use accounting.Ledger.Money.{contains, supported_currencies, upper_trim}
use accounting.Prelude.{Option, if◌then◌else◌, not}
use accounting.Prelude.Result.{
  Result, check, err, failure, from_option, lift, ok, pure, reads, ◌>>=◌, ◌>>◌,
}
use accounting.Prelude.Text.{Text, is_empty, trim_space}

-- `NormalizeBaseCurrency`; its currencies are those of the ledger.
unfoldable pub normalize_base_currency : Text → Result Text
normalize_base_currency value =
    if contains (upper_trim value) supported_currencies then ok (upper_trim value) else err failure

-- `UserProfile`
unfoldable pub user_profile : Text → AuthAction User
user_profile user_id = do
  check (is_empty (trim_space user_id)) failure
  r ← reads (user_by_id user_id)
  pure r.user

-- `UpdateUserProfile`
unfoldable pub update_user_profile : Text → Option Text → Time → AuthAction User
update_user_profile user_id base_currency now = do
  check (is_empty (trim_space user_id)) failure
  given ← lift (from_option failure base_currency)
  currency ← lift (normalize_base_currency given)
  r ← reads (user_by_id user_id)
  changed ←
      update_user (record r { user = record r.user { base_currency = currency; updated_at = now } })
  pure changed.user

-- The record that `ResolveUser` looks up.
unfoldable pub resolved : Environment → Text → Text → AuthStore → Result UserRecord
resolved env user_id email s =
    if not (is_empty (trim_space user_id))
    then user_by_id (trim_space user_id) s
    else if not (is_empty (trim_space email))
    then elim (normalize_email env email) [ err e ↦ err e | ok address ↦ user_by_email address s ]
    else err failure

-- `ResolveUser`
unfoldable pub resolve_user : Environment → Text → Text → AuthAction User
resolve_user env user_id email = do
  r ← reads (resolved env user_id email)
  check (not (is_active r.user.status)) failure
  pure r.user
