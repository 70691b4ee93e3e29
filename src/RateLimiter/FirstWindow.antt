-- ===== src/RateLimiter/FirstWindow.antt =====
-- The attempts of an address that starts a new window.
use accounting.Ledger.Money.{contains}
use accounting.Prelude.{
  All, Bool-cases, Holds, List, Option-cases, [], arith, false, if◌then◌else◌, inl, inr, none, refl,
  true, ◌+◌, ◌<◌, ◌∷◌, ◌≡◌, ◌≤◌,
}
use accounting.Prelude.Dict.{insert, lookup, lookup-insert}
use accounting.Prelude.Text.{Text, text_eq_iff, text_eq_refl}
use accounting.RateLimiter.{
  Buckets, Config, Digest, Time, allow, allow_keys, auth_rate_keys, bucket_of, count_attempt,
  counted, find_exhausted, prune_locked,
}
use accounting.RateLimiter.Attempts.{
  attempts, attempts_bounded, auth_rate_keys-IsDistinct, ip_key, untouched,
}
use accounting.RateLimiter.Window.{bucket_of-insert}

lookup-prune_none :
    (now : Time) (k : Text) (bs : Buckets)
    → lookup k bs ≡ none
    → lookup k (prune_locked now bs) ≡ none
unfolding lookup prune_locked
lookup-prune_none now k [] h = refl
lookup-prune_none now k ((j, b) ∷ bs) h = ground (arith, lookup-prune_none now k bs)

-- A refusal for another key's sake makes no bucket.
refused-none :
    (c : Config) (now : Time) (k : Text) (keys : List Text) (bs : Buckets)
    → lookup k bs ≡ none
    → Holds (λ bs'. lookup k bs' ≡ none) (find_exhausted c now keys bs)
unfolding find_exhausted
refused-none c now k [] bs h = tt
refused-none c now k (j ∷ keys) bs h = ground (
  arith,
  refused-none c now k keys bs h,
  lookup-insert j k (record (bucket_of j bs) { last_seen = now }) bs,
  text_eq_iff j k,
)

allow_keys-first :
    (c : Config) (now : Time) (k : Text) (keys : List Text) (bs : Buckets)
    → c.enabled ≡ true
    → lookup k bs ≡ none
    → contains k keys ≡ false
    → let (allowed, bs') = allow_keys c now (k ∷ keys) bs in
      if allowed
      then bucket_of k bs' ≡ record { count = 1; reset_at = now + c.window; last_seen = now }
      else lookup k bs' ≡ none
unfolding allow_keys
allow_keys-first c now k keys bs on absent fresh =
    let live = prune_locked now bs in
    let still = lookup-prune_none now k bs absent in
    elim (Option-cases (find_exhausted c now (k ∷ keys) live)) [
      | inr (bs', e) ↦ ground (arith, refused-none c now k (k ∷ keys) live still)
      | inl e ↦
          let hit = counted c now (bucket_of k live) in
          let made : bucket_of k (count_attempt c now (k ∷ keys) live)
              ≡ bucket_of k (insert k hit live) =
            unfold count_attempt in untouched c now k keys (insert k hit live) fresh in
          ground (arith, still, made, bucket_of-insert k k hit live, text_eq_refl k)
    ]

All-before :
    (start window reset_at : Time) (as_ : List (Time × Text))
    → start + window ≤ reset_at
    → All (λ a. (start ≤ a.0) × (a.0 < start + window)) as_
    → All (λ a. a.0 < reset_at) as_
All-before start window reset_at [] late h = tt
All-before start window reset_at (a ∷ as_) late h =
    (omega (arith, h.0), All-before start window reset_at as_ late h.1)

module _ (h : Digest) (c : Config) (route client_ip : Text) where
  first_attempt :
      (now : Time) (subject : Text) (bs : Buckets)
      → c.enabled ≡ true
      → lookup (ip_key route client_ip) bs ≡ none
      → let (allowed, bs') = allow h c now route client_ip subject bs in
        if allowed
        then bucket_of (ip_key route client_ip) bs'
          ≡ record { count = 1; reset_at = now + c.window; last_seen = now }
        else lookup (ip_key route client_ip) bs' ≡ none
  unfolding allow auth_rate_keys
  first_attempt now subject bs on absent =
      allow_keys-first c now (ip_key route client_ip) _ bs on absent
        (auth_rate_keys-IsDistinct h route client_ip subject).0

  -- An address without a bucket has at most as many attempts allowed as the limit says, whatever
  -- their number and subjects, where all of them fall in one window's length from a time on.
  pub window_bounded :
      (start : Time) (as_ : List (Time × Text)) (bs : Buckets)
      → c.enabled ≡ true
      → 0 < c.limit
      → lookup (ip_key route client_ip) bs ≡ none
      → All (λ a. (start ≤ a.0) × (a.0 < start + c.window)) as_
      → (attempts h c route client_ip as_ bs).0 ≤ c.limit
  unfolding attempts
  window_bounded start [] bs on pos absent inside = omega arith
  window_bounded start ((now, subject) ∷ as_) bs on pos absent inside =
      let bs' = (allow h c now route client_ip subject bs).1 in
      let one = first_attempt now subject bs on absent in
      elim (Bool-cases (allow h c now route client_ip subject bs).0) [
        | inr refused ↦
            ground (arith, one, window_bounded start as_ bs' on pos (rw refused at one) inside.1)
        | inl allowed ↦
            let made = rw allowed at one in
            let open_ : All (λ a. a.0 < (bucket_of (ip_key route client_ip) bs').reset_at) as_ =
              All-before start c.window (bucket_of (ip_key route client_ip) bs').reset_at as_
                (ground arith) inside.1 in
            ground
              (arith, made, attempts_bounded h c route client_ip as_ bs' on (ground arith) open_)
      ]
