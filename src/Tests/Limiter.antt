-- ===== src/Tests/Limiter.antt =====
-- The limiter with two attempts in a minute.
use accounting.Prelude.{
  All, Bool, List, [], arith, false, none, refl, true, ◌+◌, ◌<◌, ◌∷◌, ◌≡◌, ◌≤◌, ◌↔◌, ◌⊎◌,
}
use accounting.Prelude.Dict.{insert, lookup}
use accounting.Prelude.Text.{Text, is_empty, text, text_eq, trim_left, trim_right, trim_space}
use accounting.RateLimiter.{
  Buckets, Config, Digest, allow, allow_keys, auth_rate_key, auth_rate_keys, bucket_of, Time,
  count_attempt, default_window, find_exhausted, prune_locked,
}
use accounting.RateLimiter.Attempts.{attempts, ip_key}
use accounting.RateLimiter.Refusals.{IsBlocked, IsMap, allow_iff}
use accounting.RateLimiter.FirstWindow.{window_bounded}

abbrev two_a_minute : Config
two_a_minute = record { enabled = true; limit = 2; window = default_window }

-- A digest for the tests: the subject itself.
abbrev plain : Digest
plain = record { hex_of_lower = λ s. s }

abbrev no_buckets : Buckets
no_buckets = []

abbrev login : Time → Buckets → Bool × Buckets
login now bs = allow plain two_a_minute now (text "login") (text "1.2.3.4") (text "ann") bs

abbrev once : Buckets
once = (login 10 []).1

abbrev twice : Buckets
twice = (login 20 once).1

-- The second attempt passes, the third does not, and after the window it does again.
third_refused :
    ((login 20 once).0 ≡ true)
    × ((login 30 twice).0 ≡ false)
    × ((login (20 + default_window) twice).0 ≡ true)
unfolding allow allow_keys auth_rate_keys auth_rate_key prune_locked find_exhausted count_attempt
    insert lookup text_eq trim_space trim_left trim_right
third_refused = (refl, refl, refl)

twice-IsMap : IsMap twice
unfolding allow allow_keys auth_rate_keys auth_rate_key prune_locked find_exhausted count_attempt
    insert lookup text_eq trim_space trim_left trim_right
twice-IsMap = (refl, (refl, tt))

allow_iff_example : ((login 30 twice).0 ≡ false) ↔ (
    IsBlocked two_a_minute 30 twice (auth_rate_key (text "login") (text "ip") (text "1.2.3.4"))
    ⊎ ((is_empty (trim_space (text "ann")) ≡ false)
        × IsBlocked two_a_minute 30 twice
            (auth_rate_key (text "login") (text "subject") (trim_space (text "ann")))))
allow_iff_example =
    allow_iff plain two_a_minute 30 (text "login") (text "1.2.3.4") (text "ann") twice refl
      twice-IsMap

abbrev tries : List (Time × Text)
tries = (20, text "ann") ∷ (30, text "ben") ∷ (40, text "ann") ∷ []

-- Of three more attempts one is allowed.
one_more_allowed : (attempts plain two_a_minute (text "login") (text "1.2.3.4") tries once).0 ≡ 1
unfolding attempts allow allow_keys auth_rate_keys auth_rate_key prune_locked find_exhausted
    count_attempt insert lookup text_eq trim_space trim_left trim_right
one_more_allowed = refl

once_full : (bucket_of (ip_key (text "login") (text "1.2.3.4")) once).count ≤ 2
unfolding allow allow_keys auth_rate_keys auth_rate_key prune_locked find_exhausted count_attempt
    insert lookup text_eq trim_space trim_left trim_right
once_full = omega arith

tries_inside :
    All (λ a. a.0 < (bucket_of (ip_key (text "login") (text "1.2.3.4")) once).reset_at) tries
unfolding allow allow_keys auth_rate_keys auth_rate_key prune_locked find_exhausted count_attempt
    insert lookup text_eq trim_space trim_left trim_right
tries_inside = (omega arith, (omega arith, (omega arith, tt)))

no_bucket_yet : lookup (ip_key (text "login") (text "1.2.3.4")) no_buckets ≡ none
unfolding lookup
no_bucket_yet = refl

tries_in_window : All (λ a. (20 ≤ a.0) × (a.0 < 20 + default_window)) tries
tries_in_window =
    ((omega arith, omega arith), ((omega arith, omega arith), ((omega arith, omega arith), tt)))

window_bounded_example :
    (attempts plain two_a_minute (text "login") (text "1.2.3.4") tries no_buckets).0 ≤ 2
window_bounded_example =
    window_bounded plain two_a_minute (text "login") (text "1.2.3.4") 20 tries no_buckets refl
      (omega arith) no_bucket_yet tries_in_window
