-- ===== src/RateLimiter/Attempts.antt =====
-- The attempts of one client against one route.
use accounting.Ledger.Money.{contains}
use accounting.Prelude.{
  All, Bool-cases, Holds, List, Option-cases, [], arith, false, if◌then◌else◌, inl, inr, refl,
  subst, sym, true, ℕ, ◌++◌, ◌+◌, ◌<◌, ◌∷◌, ◌≡◌, ◌≤◌,
}
use accounting.Prelude.Dict.{insert}
use accounting.Prelude.Text.{
  Text, is_empty, text, text_eq, text_eq_iff, text_eq_refl, trim_left, trim_right, trim_space,
}
use accounting.RateLimiter.{
  Bucket, Buckets, Config, Digest, Time, allow, allow_keys, auth_rate_key, auth_rate_keys,
  bucket_of, count_attempt, counted, find_exhausted, prune_locked,
}
use accounting.RateLimiter.Window.{
  IsDistinct, IsWithin, allow_keys-IsWithin, bucket_of-insert, find_exhausted-full, none_full,
}
use accounting.RateLimiter.Refusals.{lookup-prune_open}

-- The two keys of a request are different.
text_eq-append : (p s t : Text) → text_eq (p ++ s) (p ++ t) ≡ text_eq s t
unfolding text_eq
text_eq-append [] s t = refl
text_eq-append (a ∷ p) s t = ground (arith, text_eq-append p s t)

keys_ne :
    (route x client_ip : Text)
    → text_eq (auth_rate_key route (text "subject") x) (auth_rate_key route (text "ip") client_ip)
      ≡ false
unfolding auth_rate_key text_eq trim_space trim_left trim_right
keys_ne route x client_ip = text_eq-append (trim_space route) _ _

pub auth_rate_keys-IsDistinct :
    (h : Digest) (route client_ip subject : Text)
    → IsDistinct (auth_rate_keys h route client_ip subject)
unfolding auth_rate_keys contains
auth_rate_keys-IsDistinct h route client_ip subject =
    elim (Bool-cases (is_empty (trim_space subject))) [
      | inl none_ ↦ rw none_ (refl, tt)
      | inr some_ ↦ rw (some_, keys_ne) (refl, (refl, tt))
    ]

-- No request, allowed or refused, at any time, makes a bucket count more attempts than the limit.
pub allow-IsWithin :
    (h : Digest) (c : Config) (now : Time) (route client_ip subject : Text) (bs : Buckets)
    → 0 < c.limit
    → IsWithin c bs
    → IsWithin c (allow h c now route client_ip subject bs).1
unfolding allow
allow-IsWithin h c now route client_ip subject bs pos w =
    allow_keys-IsWithin c now _ bs pos (auth_rate_keys-IsDistinct h route client_ip subject) w

-- The count and the end of the window of a key, after a refusal.
refused-bucket :
    (c : Config) (now : Time) (k : Text) (keys : List Text) (bs : Buckets)
    → Holds
        (λ bs'.
          ((bucket_of k bs').count ≡ (bucket_of k bs).count)
          × ((bucket_of k bs').reset_at ≡ (bucket_of k bs).reset_at))
        (find_exhausted c now keys bs)
unfolding find_exhausted
refused-bucket c now k [] bs = tt
refused-bucket c now k (j ∷ keys) bs = ground (
  arith,
  refused-bucket c now k keys bs,
  bucket_of-insert j k (record (bucket_of j bs) { last_seen = now }) bs,
  text_eq_iff j k,
)

pub untouched :
    (c : Config) (now : Time) (k : Text) (keys : List Text) (bs : Buckets)
    → contains k keys ≡ false
    → bucket_of k (count_attempt c now keys bs) ≡ bucket_of k bs
unfolding count_attempt contains
untouched c now k [] bs h = refl
untouched c now k (j ∷ keys) bs h =
    let b = counted c now (bucket_of j bs) in
    ground (
      arith,
      untouched c now k keys (insert j b bs),
      bucket_of-insert j k b bs,
      text_eq_iff j k,
      text_eq_iff k j,
    )

-- What one attempt does to the bucket of the address.
pub allow_keys-bucket :
    (c : Config) (now : Time) (k : Text) (keys : List Text) (bs : Buckets)
    → c.enabled ≡ true
    → now < (bucket_of k bs).reset_at
    → contains k keys ≡ false
    → let (allowed, bs') = allow_keys c now (k ∷ keys) bs in
      ((bucket_of k bs').reset_at ≡ (bucket_of k bs).reset_at)
      × ((bucket_of k bs').count
          ≡ (if allowed then (bucket_of k bs).count + 1 else (bucket_of k bs).count))
      × (allowed ≡ true → (bucket_of k bs).count < c.limit)
unfolding allow_keys
allow_keys-bucket c now k keys bs on open_ fresh =
    elim (Option-cases (find_exhausted c now (k ∷ keys) (prune_locked now bs))) [
      | inr (bs', e) ↦ ground (
        arith,
        lookup-prune_open now k bs open_,
        refused-bucket c now k (k ∷ keys) (prune_locked now bs),
      )
      | inl e ↦
          let live = prune_locked now bs in
          let full = find_exhausted-full c now (k ∷ keys) live in
          let same = lookup-prune_open now k bs open_ in
          let hit = counted c now (bucket_of k live) in
          let mine : bucket_of k (count_attempt c now (k ∷ keys) live)
              ≡ bucket_of k (insert k hit live) =
            unfold count_attempt in untouched c now k keys (insert k hit live) fresh in
          ground (
            arith,
            same,
            full,
            none_full c now k keys live,
            mine,
            bucket_of-insert k k hit live,
            text_eq_refl k,
          )
    ]

abbrev pub ip_key : Text → Text → Text
ip_key route client_ip = auth_rate_key route (text "ip") client_ip

-- The attempts of one address against one route, at their times and for their subjects: how many
-- are allowed, and the buckets behind them.
unfoldable pub attempts : Digest → Config → Text → Text → List (Time × Text) → Buckets → ℕ × Buckets
attempts h c route client_ip [] bs = (0, bs)
attempts h c route client_ip ((now, subject) ∷ as_) bs =
    let (allowed, bs') = allow h c now route client_ip subject bs in
    let (n, last) = attempts h c route client_ip as_ bs' in (if allowed then n + 1 else n, last)

module _ (h : Digest) (c : Config) (route client_ip : Text) where
  abbrev mine : Buckets → Bucket
  mine bs = bucket_of (ip_key route client_ip) bs

  -- One attempt before the end of the window.
  one_attempt :
      (now : Time) (subject : Text) (bs : Buckets)
      → c.enabled ≡ true
      → now < (mine bs).reset_at
      → let (allowed, bs') = allow h c now route client_ip subject bs in
        ((mine bs').reset_at ≡ (mine bs).reset_at)
        × ((mine bs').count ≡ (if allowed then (mine bs).count + 1 else (mine bs).count))
        × (allowed ≡ true → (mine bs).count < c.limit)
  unfolding allow auth_rate_keys
  one_attempt now subject bs on open_ =
      allow_keys-bucket c now (ip_key route client_ip) _ bs on open_
        (auth_rate_keys-IsDistinct h route client_ip subject).0

  -- While the window of an address is open, the attempts that it has counted and those that are
  -- allowed from then on, for whatever subjects, are together at most the limit.
  pub attempts_bounded :
      (as_ : List (Time × Text)) (bs : Buckets)
      → c.enabled ≡ true
      → (mine bs).count ≤ c.limit
      → All (λ a. a.0 < (mine bs).reset_at) as_
      → (mine bs).count + (attempts h c route client_ip as_ bs).0 ≤ c.limit
  unfolding attempts
  attempts_bounded [] bs on w open_ = omega arith
  attempts_bounded ((now, subject) ∷ as_) bs on w open_ =
      let one = one_attempt now subject bs on open_.0 in
      let bs' = (allow h c now route client_ip subject bs).1 in
      let still : All (λ a. a.0 < (mine bs').reset_at) as_ =
        subst (λ (r : Time). All (λ (a : Time × Text). a.0 < r) as_) (sym one.0) open_.1 in
      ground (arith, attempts_bounded as_ bs' on, still, one)
