-- ===== src/Auth/Login/Sessions.antt =====
-- Sessions: what a login opens, a logout closes.
use accounting.Auth.Environment.{Environment}
use accounting.Auth.Login.{
  AuthResult, Fresh, LoginRequest, create_session, hash_session_token, logout, new_session,
  session_from_token, sign_in, signed_in, upgrade_hash,
}
use accounting.Auth.Model.{Session, Time, User, UserRecord}
use accounting.Auth.Store.{
  AuthStore, clone_user_record, create_user, delete_session, delete_sessions_by_user,
  reset_login_throttle, session_by_token_hash, store_session, update_user,
}
use accounting.Prelude.{
  Bool-cases, Holds, arith, false, inl, inr, refl, some, subst, sym, ◌+◌, ◌<◌, ◌≡◌,
}
use accounting.Prelude.Result.{Result, err, failure, lift, ok, or_fail, pure, ◌>>=◌, ◌>>◌}
use accounting.Prelude.Result.Steps.{>>=-step, >>=-trace}
use accounting.Prelude.Text.{Text, is_empty, text_eq, text_eq_refl}

-- The token of a session that was opened, if it is not empty, reads as that session until it expires.
pub create_session-session_from_token :
    (env : Environment) (r : UserRecord) (fresh : Fresh) (now later : Time) (s : AuthStore)
    → is_empty fresh.token ≡ false
    → later < now + env.config.session_ttl
    → session_from_token env fresh.token later (create_session env r fresh now s).1
      ≡ ok (new_session env r fresh now)
unfolding session_from_token create_session store_session session_by_token_hash
create_session-session_from_token env r fresh now later s filled soon =
    ground (arith, text_eq_refl (hash_session_token env fresh.token))

-- After a logout its token is not accepted any more.
pub logout-session_from_token :
    (env : Environment) (token : Text) (later : Time) (s : AuthStore)
    → session_from_token env token later (logout env token s).1 ≡ err failure
unfolding session_from_token logout delete_session session_by_token_hash
logout-session_from_token env token later s =
    ground (arith, text_eq_refl (hash_session_token env token))

-- No session of a user is left.
abbrev pub NoSessions : Text → AuthStore → Type 0
NoSessions user_id s = (h : Text) → Holds (λ x. text_eq x.user_id user_id ≡ false) (s.sessions h)

pub delete_sessions_by_user-NoSessions :
    (user_id : Text) (s : AuthStore) → NoSessions user_id (delete_sessions_by_user user_id s).1
unfolding delete_sessions_by_user
delete_sessions_by_user-NoSessions user_id s h = ground arith

pub update_user_answer :
    (r x : UserRecord) (s : AuthStore)
    → (update_user r s).0 ≡ ok x
    → (x.user.id ≡ r.user.id)
      × (x.password_hash ≡ r.password_hash)
      × ((update_user r s).1.users r.user.id ≡ some x)
unfolding update_user clone_user_record
update_user_answer r x s h = ground (arith, text_eq_refl r.user.id)

-- The session of an answer is that of the user `r`, made of the request's randomness and time, and
-- stored under the hash of the token that is answered; the user answered is `r` as well.
pub record IsSessionOf (env : Environment) (r : UserRecord) (fresh : Fresh) (now : Time) (u : User)
    (x : Session) (t : Text) (after : AuthStore) : Type 0 where
  pub answered : u.id ≡ r.user.id
  pub owner : x.user_id ≡ r.user.id
  pub address : x.user_email ≡ r.user.email
  pub standing : x.status ≡ r.user.status
  pub id : x.id ≡ fresh.session_id
  pub created : x.created_at ≡ now
  pub expiry : x.expires_at ≡ now + env.config.session_ttl
  pub token : t ≡ fresh.token
  pub stored : session_by_token_hash (hash_session_token env t) after ≡ ok x

-- Two records of one user.
pub record SameUser (r q : UserRecord) : Type 0 where
  pub id : q.user.id ≡ r.user.id
  pub email : q.user.email ≡ r.user.email
  pub status : q.user.status ≡ r.user.status

pub update_user-SameUser :
    (r q x : UserRecord) (s : AuthStore) → SameUser r q → (update_user q s).0 ≡ ok x → SameUser r x
unfolding update_user clone_user_record
update_user-SameUser r q x s same h = record {
  id = ground (arith, same.id);
  email = ground (arith, same.email);
  status = ground (arith, same.status);
}

pub create_user-SameUser :
    (r x : UserRecord) (s : AuthStore)
    → (create_user r s).0 ≡ ok x
    → SameUser r x × ((create_user r s).1.users r.user.id ≡ some x)
unfolding create_user clone_user_record
create_user-SameUser r x s h = (
  record { id = ground arith; email = ground arith; status = ground arith },
  ground (arith, text_eq_refl r.user.id),
)

-- An answer opens a session of the user `r`, as above.
abbrev pub Opens : Environment → UserRecord → Fresh → Time → Result AuthResult × AuthStore → Type 0
Opens env r fresh now (a, after) =
    (u : User) × (x : Session) × (t : Text) × (a ≡ ok (signed_in u x t))
    × IsSessionOf env r fresh now u x t after

pub create_session-Opens :
    (env : Environment) (r q : UserRecord) (fresh : Fresh) (now : Time) (s : AuthStore)
    → SameUser r q
    → Opens env r fresh now (create_session env q fresh now s)
unfolding create_session store_session session_by_token_hash
create_session-Opens env r q fresh now s same = (
  q.user,
  new_session env q fresh now,
  fresh.token,
  refl,
  record {
    answered = same.id;
    owner = same.id;
    address = same.email;
    standing = same.status;
    id = refl;
    created = refl;
    expiry = refl;
    token = refl;
    stored = ground (arith, text_eq_refl (hash_session_token env fresh.token));
  },
)

upgrade_hash-SameUser :
    (env : Environment) (password : Text) (now : Time) (r x : UserRecord) (s : AuthStore)
    → (upgrade_hash env password now r s).0 ≡ ok x
    → SameUser r x
unfolding upgrade_hash
upgrade_hash-SameUser env password now r x s h =
    let itself : SameUser r r = record { id = refl; email = refl; status = refl } in
    let (stale, _, rest) =
      >>=-step (lift (or_fail failure (env.needs_rehash r.password_hash))) _ s h in
    elim (Bool-cases stale) [
      | inr kept ↦
          let same : r ≡ x = ground (arith, rw kept at rest) in
          subst (λ y. SameUser r y) same itself
      | inl old ↦
          let (hash, _, last) =
            >>=-step (lift (env.hash_password password))
              (λ password_hash. update_user (record r {
                password_hash = password_hash;
                user = record r.user { updated_at = now };
              }))
              s (rw old at rest) in
          update_user-SameUser r
            (record r { password_hash = hash; user = record r.user { updated_at = now } }) x s
            (record { id = refl; email = refl; status = refl }) last
    ]

signed_in_session :
    (env : Environment) (r q : UserRecord) (fresh : Fresh) (email : Text) (now : Time)
    (s : AuthStore) (u : User) (x : Session) (t : Text)
    → SameUser r q
    → ((create_session env q fresh now >>= λ result. reset_login_throttle email >> pure result) s).0
      ≡ ok (signed_in u x t)
    → IsSessionOf env r fresh now u x t
        ((create_session env q fresh now >>= λ result. reset_login_throttle email >> pure result)
          s).1
unfolding create_session store_session session_by_token_hash reset_login_throttle
signed_in_session env r q fresh email now s u x t same h = record {
  answered = ground (arith, same.id);
  owner = ground (arith, same.id);
  address = ground (arith, same.email);
  standing = ground (arith, same.status);
  id = ground arith;
  created = ground arith;
  expiry = ground arith;
  token = ground arith;
  stored = ground (arith, text_eq_refl (hash_session_token env fresh.token));
}

pub sign_in-IsSessionOf :
    (env : Environment) (q : LoginRequest) (email : Text) (fresh : Fresh) (now : Time)
    (r : UserRecord) (s : AuthStore) (u : User) (x : Session) (t : Text)
    → (sign_in env q email fresh now r s).0 ≡ ok (signed_in u x t)
    → IsSessionOf env r fresh now u x t (sign_in env q email fresh now r s).1
unfolding sign_in
sign_in-IsSessionOf env q email fresh now r s u x t h =
    let (up, good, step, rest) = >>=-trace (upgrade_hash env q.password now r) _ s h in
    subst (λ (p : Result AuthResult × AuthStore). IsSessionOf env r fresh now u x t p.1) (sym step)
      (signed_in_session env r up fresh email now _ u x t
        (upgrade_hash-SameUser env q.password now r up s good) rest)
