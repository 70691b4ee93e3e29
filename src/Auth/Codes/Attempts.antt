-- ===== src/Auth/Codes/Attempts.antt =====
-- How often a one-time code can be guessed, and used.
use accounting.Auth.Codes.{
  consume_email_code, count_guess, hash_email_code, judge_code, max_email_code_attempts,
}
use accounting.Auth.Environment.{Environment}
use accounting.Auth.Model.{
  EmailCodePurpose, EmailCodeRecord, Time, email_verification, password_reset, same_purpose,
}
use accounting.Auth.Store.{AuthStore, delete_email_code, email_code, store_email_code}
use accounting.Prelude.{
  All, Bool-cases, List, Option-cases, [], ap, arith, false, if◌then◌else◌, inl, inr, length, ltb,
  none, refl, some, true, ◌&&◌, ◌+◌, ◌<◌, ◌∙◌, ◌∷◌, ◌≡◌, ◌≤◌,
}
use accounting.Prelude.Result.{err, invalid_credentials, ok}
use accounting.Prelude.Text.{Text, is_empty, text_eq, text_eq_iff, text_eq_refl, trim_space}

same_purpose_refl : (p : EmailCodePurpose) → same_purpose p p ≡ true
same_purpose_refl email_verification = refl
same_purpose_refl password_reset = refl

module _ (env : Environment) (email : Text) (purpose : EmailCodePurpose) where
  -- The stored code after a guess.
  pub wrong_guess :
      (code : Text) (now : Time) (c : EmailCodeRecord) (s : AuthStore)
      → c.email ≡ email
      → c.purpose ≡ purpose
      → s.email_codes email purpose ≡ some c
      → is_empty (trim_space code) ≡ false
      → text_eq (hash_email_code env email purpose code) c.code_hash ≡ false
      → (consume_email_code env email purpose code now s).1.email_codes email purpose ≡ (
          if ltb now c.expires_at && ltb (c.attempts + 1) max_email_code_attempts
          then some (record c { attempts = c.attempts + 1 })
          else none)
  unfolding consume_email_code email_code judge_code count_guess delete_email_code store_email_code
  wrong_guess code now c s mail kind there filled wrong =
      ground (arith, text_eq_refl email, same_purpose_refl purpose, text_eq_iff c.email email)

  no_code :
      (code : Text) (now : Time) (s : AuthStore)
      → s.email_codes email purpose ≡ none
      → consume_email_code env email purpose code now s ≡ (err invalid_credentials, s)
  unfolding consume_email_code email_code
  no_code code now s absent = ground arith

  -- The store after guesses at a code, each at its time.
  unfoldable pub guess_all : List (Text × Time) → AuthStore → AuthStore
  guess_all [] s = s
  guess_all ((code, now) ∷ gs) s = guess_all gs (consume_email_code env email purpose code now s).1

  abbrev pub IsWrong : Text → Text × Time → Type 0
  IsWrong code_hash g =
      (is_empty (trim_space g.0) ≡ false)
      × (text_eq (hash_email_code env email purpose g.0) code_hash ≡ false)

  stays_gone :
      (gs : List (Text × Time)) (s : AuthStore)
      → s.email_codes email purpose ≡ none
      → (guess_all gs s).email_codes email purpose ≡ none
  unfolding guess_all
  stays_gone [] s gone = gone
  stays_gone ((code, now) ∷ gs) s gone =
      stays_gone gs _ (ap (λ x. x.1.email_codes email purpose) (no_code code now s gone) ∙ gone)

  exhausted :
      (gs : List (Text × Time)) (c : EmailCodeRecord) (s : AuthStore)
      → c.email ≡ email
      → c.purpose ≡ purpose
      → s.email_codes email purpose ≡ some c
      → All (IsWrong c.code_hash) gs
      → max_email_code_attempts ≤ c.attempts + length gs
      → c.attempts < max_email_code_attempts
      → (guess_all gs s).email_codes email purpose ≡ none
  unfolding guess_all
  exhausted [] c s mail kind there wrong many few = absurd (omega arith)
  exhausted ((code, now) ∷ gs) c s mail kind there wrong many few =
      let s' = (consume_email_code env email purpose code now s).1 in
      let after = wrong_guess code now c s mail kind there wrong.0.0 wrong.0.1 in
      elim (Bool-cases (ltb now c.expires_at && ltb (c.attempts + 1) max_email_code_attempts)) [
        | inr gone ↦ stays_gone gs s' (after ∙ rw gone refl)
        | inl left ↦
            exhausted gs (record c { attempts = c.attempts + 1 }) s' mail kind
              (after ∙ rw left refl) wrong.1 (omega arith) (ground arith)
      ]

  -- After five wrong guesses at a fresh code, of whatever times, no guess is accepted any more, not
  -- even the right one.
  pub guesses_bounded :
      (gs : List (Text × Time)) (c : EmailCodeRecord) (s : AuthStore) (code : Text) (now : Time)
      → c.email ≡ email
      → c.purpose ≡ purpose
      → c.attempts ≡ 0
      → s.email_codes email purpose ≡ some c
      → All (IsWrong c.code_hash) gs
      → max_email_code_attempts ≤ length gs
      → (consume_email_code env email purpose code now (guess_all gs s)).0 ≡ err invalid_credentials
  guesses_bounded gs c s code now mail kind fresh there wrong many =
      ap (λ x. x.0)
        (no_code code now (guess_all gs s)
          (exhausted gs c s mail kind there wrong (omega arith) (omega arith)))

  -- A guess is accepted only where a code is stored that has not expired and whose hash is that of
  -- the guess, and then the code is gone.
  pub consume_email_code_once :
      (code : Text) (now : Time) (s : AuthStore)
      → (consume_email_code env email purpose code now s).0 ≡ ok tt
      → ((c : EmailCodeRecord) × (s.email_codes email purpose ≡ some c)
          × (now < c.expires_at)
          × (hash_email_code env email purpose code ≡ c.code_hash))
        × ((consume_email_code env email purpose code now s).1.email_codes email purpose ≡ none)
  unfolding consume_email_code email_code judge_code count_guess delete_email_code store_email_code
  consume_email_code_once code now s h = elim (Option-cases (s.email_codes email purpose)) [
    | inl gone ↦ absurd (ground arith)
    | inr (c, there) ↦ (
      (
        c,
        there,
        ground arith,
        ground (arith, text_eq_iff (hash_email_code env email purpose code) c.code_hash),
      ),
      ground (arith, text_eq_refl email, same_purpose_refl purpose),
    )
  ]
