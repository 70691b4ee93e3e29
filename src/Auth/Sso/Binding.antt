-- ===== src/Auth/Sso/Binding.antt =====
-- Whose session a token of the provider opens.
use accounting.Auth.Environment.{Environment, SsoIdentity, normalize_email}
use accounting.Auth.Login.{AuthResult, Fresh, create_session}
use accounting.Auth.Login.Sessions.{
  Opens, SameUser, create_session-Opens, create_user-SameUser, update_user-SameUser,
}
use accounting.Auth.Model.{Time, UserRecord, is_active}
use accounting.Auth.Sso.{
  bind_subject, create_external_sso_session, login_with_external_sso,
  normalize_external_sso_user_id, provision, sign_in_identity, provisioned, sso_user,
  validate_identity,
}
use accounting.Auth.Store.{AuthStore, create_user, store_session}
use accounting.Prelude.{
  Bool-cases, arith, inl, inr, not, refl, some, subst, sym, true, ◌∙◌, ◌≡◌, ◌⊎◌,
}
use accounting.Prelude.Result.{Error, Result, check, err, failure, invalid_credentials, lift, ok}
use accounting.Prelude.Result.Steps.{>>=-trace}
use accounting.Prelude.Text.{Text, is_empty, text_eq_iff, trim_space}

abbrev pub IsStored : UserRecord → AuthStore → Type 0
IsStored r s = (x : UserRecord) × (s.users r.user.id ≡ some x) × SameUser r x

-- Whose session an identity opens: that of a stored user who is active and bound to no other
-- subject, or, where users are provisioned, that of a new user, who is stored.
abbrev pub SignsIn :
    Environment → Text → Text → Fresh → Time → AuthStore → Result AuthResult × AuthStore → Type 0
SignsIn env id email fresh now s p =
    ((r : UserRecord) × (sso_user id email s ≡ ok r)
      × (is_active r.user.status ≡ true)
      × ((is_empty (trim_space r.external_sso_subject) ≡ true)
          ⊎ (trim_space r.external_sso_subject ≡ id))
      × Opens env r fresh now p)
    ⊎ ((e : Error) × (sso_user id email s ≡ err e)
        × (env.config.external_sso_auto_provision ≡ true)
        × Opens env (provisioned id email now) fresh now p
        × IsStored (provisioned id email now) p.1)

bound :
    (r : UserRecord) (id : Text) (now : Time) (x : UserRecord) (s : AuthStore)
    → (bind_subject r id now s).0 ≡ ok x
    → ((is_empty (trim_space r.external_sso_subject) ≡ true)
        ⊎ (trim_space r.external_sso_subject ≡ id))
      × SameUser r x
unfolding bind_subject
bound r id now x s h =
    let itself : SameUser r r = record { id = refl; email = refl; status = refl } in
    elim (Bool-cases (is_empty (trim_space r.external_sso_subject))) [
      | inl blank ↦ (
        inl blank,
        update_user-SameUser r
            (record r { external_sso_subject = id; user = record r.user { updated_at = now } }) x s
            (record { id = refl; email = refl; status = refl }) (rw blank at h),
      )
      | inr named ↦
          let same : r ≡ x = ground arith in
          (
            inr (ground (arith, text_eq_iff (trim_space r.external_sso_subject) id)),
            subst (λ y. SameUser r y) same itself,
          )
    ]

opened_new :
    (env : Environment) (id email : Text) (fresh : Fresh) (now : Time) (s : AuthStore)
    (x : UserRecord)
    → (create_user (provisioned id email now) s).0 ≡ ok x
    → let p = create_session env x fresh now (create_user (provisioned id email now) s).1 in
      Opens env (provisioned id email now) fresh now p × IsStored (provisioned id email now) p.1
unfolding create_session store_session
opened_new env id email fresh now s x made =
    let (same, stored) = create_user-SameUser (provisioned id email now) x s made in
    (create_session-Opens env (provisioned id email now) x fresh now _ same, (x, stored, same))

signs_in :
    (env : Environment) (id email : Text) (fresh : Fresh) (now : Time) (s : AuthStore)
    (found : Result UserRecord) (a : AuthResult)
    → found ≡ sso_user id email s
    → (sign_in_identity env id email fresh now found s).0 ≡ ok a
    → SignsIn env id email fresh now s (sign_in_identity env id email fresh now found s)
unfolding sign_in_identity create_external_sso_session provision
signs_in env id email fresh now s (ok r) a e h =
    let (_, live, i, rest) =
      >>=-trace (check (not (is_active r.user.status)) invalid_credentials) _ s h in
    let (x, tied, j, last) = >>=-trace (bind_subject r id now) _ s rest in
    let (subject, same) = bound r id now x s tied in
    inl (
      r,
      sym e,
      ground arith,
      subject,
      subst (λ (p : Result AuthResult × AuthStore). Opens env r fresh now p) (sym (i ∙ j))
          (create_session-Opens env r x fresh now _ same),
    )
signs_in env id email fresh now s (err x) a e h =
    let (_, allowed, i, rest) =
      >>=-trace (check (not env.config.external_sso_auto_provision) failure) _ s h in
    let (y, made, j, last) = >>=-trace (create_user (provisioned id email now)) _ s rest in
    let (session, stored) =
      subst
        (λ (p : Result AuthResult × AuthStore).
          Opens env (provisioned id email now) fresh now p
          × IsStored (provisioned id email now) p.1)
        (sym (i ∙ j)) (opened_new env id email fresh now s y made) in
    inr (x, sym e, ground arith, session, stored)

-- A login by SSO that succeeds has a token that the provider's validator accepts, and opens a session
-- of the stored user with the identity's id or else with its address, who is active and is bound to
-- no other identity; or, where users are provisioned and nobody is stored, of a new user with that id
-- and address, who is stored. The session has the user's id and address, the id and time of the
-- request and the configured expiry, and is stored under the hash of the answered token.
pub login_with_external_sso-SignsIn :
    (env : Environment) (token : Text) (fresh : Fresh) (now : Time) (s : AuthStore) (a : AuthResult)
    → (login_with_external_sso env token fresh now s).0 ≡ ok a
    → (who : SsoIdentity) × (email : Text) × (id : Text) × (validate_identity env token ≡ ok who)
      × (normalize_email env who.username ≡ ok email)
      × (normalize_external_sso_user_id env who.subject ≡ ok id)
      × SignsIn env id email fresh now s (login_with_external_sso env token fresh now s)
unfolding login_with_external_sso
login_with_external_sso-SignsIn env token fresh now s a h =
    let (_, on, i, p) = >>=-trace (check (not env.config.external_sso_enabled) failure) _ s h in
    let (who, valid, j, q) = >>=-trace (lift (validate_identity env token)) _ s p in
    let (email, named, k, r) = >>=-trace (lift (normalize_email env who.username)) _ s q in
    let (id, known, l, t) =
      >>=-trace (lift (normalize_external_sso_user_id env who.subject)) _ s r in
    (
      who,
      email,
      id,
      valid,
      named,
      known,
      subst (λ (p : Result AuthResult × AuthStore). SignsIn env id email fresh now s p)
          (sym (i ∙ j ∙ k ∙ l)) (signs_in env id email fresh now s (sso_user id email s) a refl t),
    )
