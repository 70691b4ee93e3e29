-- ===== src/RateLimiter.antt =====
-- backend/internal/httpserver/auth_rate_limiter.go: the fixed-window limiter of authentication
-- attempts. `Time` is nanoseconds since the zero time; the limit is an `int` and the window a
-- duration, both positive after `newAuthRateLimiter`.
pub mod Window
pub mod Refusals
pub mod Attempts
pub mod FirstWindow
use accounting.Prelude.{
  Bool, List, Option, [], count, false, if◌then◌else◌, leb, ltb, none, not, or_default, some, true,
  ℕ, ◌++◌, ◌+◌, ◌==◌, ◌||◌, ◌∷◌,
}
use accounting.Prelude.Dict.{Dict, insert, lookup}
use accounting.Prelude.Text.{Text, is_empty, text, trim_space}
use accounting.Prelude.Word.{is_negative}

abbrev pub Time : Type 0
Time = ℕ

pub record Config : Type 0 where
  pub enabled : Bool
  pub limit : ℕ
  pub window : ℕ

pub record Bucket : Type 0 where
  pub count : ℕ
  pub reset_at : Time
  pub last_seen : Time

abbrev pub Buckets : Type 0
Buckets = Dict Bucket

abbrev pub default_window : ℕ
default_window = 60_000_000_000

-- `newAuthRateLimiter`; the words are read as signed.
unfoldable pub normalize_config : Config → Config
normalize_config c = record c {
  limit = if c.limit == 0 || is_negative c.limit then 20 else c.limit;
  window = if c.window == 0 || is_negative c.window then default_window else c.window;
}

-- `pruneLocked`: deleting during the iteration visits every bucket once.
unfoldable pub prune_locked : Time → Buckets → Buckets
prune_locked now [] = []
prune_locked now ((k, b) ∷ bs) =
    let rest = prune_locked now bs in if ltb b.reset_at now then rest else (k, b) ∷ rest

-- The zero bucket of a missing key.
abbrev pub no_bucket : Bucket
no_bucket = record { count = 0; reset_at = 0; last_seen = 0 }

abbrev pub bucket_of : Text → Buckets → Bucket
bucket_of key bs = or_default (lookup key bs) no_bucket

-- `bucket.ResetAt.IsZero() || !bucket.ResetAt.After(now)`
abbrev pub is_over : Time → Bucket → Bool
is_over now b = b.reset_at == 0 || not (ltb now b.reset_at)

-- The first loop of `allow`: `some` is the state with which it returns false.
unfoldable pub find_exhausted : Config → Time → List Text → Buckets → Option Buckets
find_exhausted c now [] bs = none
find_exhausted c now (key ∷ keys) bs =
    let b = bucket_of key bs in
    let next = find_exhausted c now keys bs in
    if is_over now b
    then next
    else if leb c.limit b.count
    then some (insert key (record b { last_seen = now }) bs)
    else next

abbrev pub counted : Config → Time → Bucket → Bucket
counted c now b =
    if is_over now b
    then record { count = 1; reset_at = now + c.window; last_seen = now }
    else record b { count = b.count + 1; last_seen = now }

-- The second loop of `allow`.
unfoldable pub count_attempt : Config → Time → List Text → Buckets → Buckets
count_attempt c now [] bs = bs
count_attempt c now (key ∷ keys) bs =
    count_attempt c now keys (insert key (counted c now (bucket_of key bs)) bs)

-- The lower-case form and the digest of a subject are those of `strings.ToLower` and SHA-256.
pub record Digest : Type 0 where
  pub hex_of_lower : Text → Text

-- `strings.Join(…, "\x00")`
unfoldable pub auth_rate_key : Text → Text → Text → Text
auth_rate_key route dimension value =
    trim_space route ++ (0 ∷ (trim_space dimension ++ (0 ∷ trim_space value)))

unfoldable pub auth_rate_keys : Digest → Text → Text → Text → List Text
auth_rate_keys h route client_ip subject =
    auth_rate_key route (text "ip") client_ip
    ∷ (if is_empty (trim_space subject)
        then []
        else auth_rate_key route (text "subject") (h.hex_of_lower (trim_space subject)) ∷ [])

-- The rest of `allow` once the keys are known.
unfoldable pub allow_keys : Config → Time → List Text → Buckets → Bool × Buckets
allow_keys c now keys bs =
    if not c.enabled
    then (true, bs)
    else let live = prune_locked now bs in
      elim (find_exhausted c now keys live) [
        | some bs' ↦ (false, bs')
        | none ↦ (true, count_attempt c now keys live)
      ]

-- `allow` at a time, for a route, a client address and a subject.
unfoldable pub allow : Digest → Config → Time → Text → Text → Text → Buckets → Bool × Buckets
allow h c now route client_ip subject bs =
    allow_keys c now (auth_rate_keys h route client_ip subject) bs
