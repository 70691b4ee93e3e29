-- ===== src/RateLimiter/Refusals.antt =====
-- Which requests the limiter refuses, as the buckets stood before the pruning.
use accounting.Prelude.{
  Bool, Bool-cases, [], arith, false, if◌then◌else◌, inl, inr, none, not, refl, true, ◌<◌, ◌∷◌, ◌≡◌,
  ◌≤◌, ◌↔◌, ◌⊎◌, ◌||◌,
}
use accounting.Prelude.Dict.{lookup}
use accounting.Prelude.Text.{Text, is_empty, text, text_eq_iff, trim_space}
use accounting.RateLimiter.{
  Buckets, Config, Digest, Time, allow, auth_rate_key, auth_rate_keys, bucket_of, prune_locked,
}
use accounting.RateLimiter.Window.{allow_keys_iff, any_full, is_full}

pub lookup-prune_open :
    (now : Time) (k : Text) (bs : Buckets)
    → now < (bucket_of k bs).reset_at
    → bucket_of k (prune_locked now bs) ≡ bucket_of k bs
unfolding lookup prune_locked
lookup-prune_open now k [] h = refl
lookup-prune_open now k ((j, b) ∷ bs) h = ground (arith, lookup-prune_open now k bs)

-- A key that is not stored is not stored after the pruning either.
lookup-prune_none :
    (now : Time) (k : Text) (bs : Buckets)
    → lookup k bs ≡ none
    → lookup k (prune_locked now bs) ≡ none
unfolding lookup prune_locked
lookup-prune_none now k [] h = refl
lookup-prune_none now k ((j, b) ∷ bs) h = ground (arith, lookup-prune_none now k bs)

-- No key stands twice, as in every Go map.
abbrev pub IsMap : Buckets → Type 0
IsMap [] = Unit
IsMap ((k, b) ∷ bs) = (lookup k bs ≡ none) × IsMap bs

-- The bucket of a key has an open window, with as many attempts as the limit.
abbrev pub IsBlocked : Config → Time → Buckets → Text → Type 0
IsBlocked c now bs k = (now < (bucket_of k bs).reset_at) × (c.limit ≤ (bucket_of k bs).count)

-- A window that is open after the pruning was open before it, with the same bucket.
open-prune_locked :
    (now : Time) (k : Text) (bs : Buckets)
    → IsMap bs
    → now < (bucket_of k (prune_locked now bs)).reset_at
    → bucket_of k (prune_locked now bs) ≡ bucket_of k bs
unfolding lookup prune_locked
open-prune_locked now k [] m h = refl
open-prune_locked now k ((j, b) ∷ bs) m h =
    ground (arith, text_eq_iff j k, lookup-prune_none now j bs m.0, open-prune_locked now k bs m.1)

full-IsBlocked :
    (c : Config) (now : Time) (k : Text) (bs : Buckets)
    → IsMap bs
    → (is_full c now (bucket_of k (prune_locked now bs)) ≡ true) ↔ IsBlocked c now bs k
full-IsBlocked c now k bs m = (
  λ h. ground (arith, open-prune_locked now k bs m),
  λ h. ground (arith, lookup-prune_open now k bs h.0),
)

blocked_keys :
    (i o e : Bool) {I O : Type 0}
    → (i ≡ true) ↔ I
    → (o ≡ true) ↔ O
    → (not (i || (if e then false else o || false)) ≡ false) ↔ (I ⊎ ((e ≡ false) × O))
blocked_keys true o e ip own = (λ h. inl (ip.0 refl), λ h. refl)
blocked_keys false true true ip own = (
  λ h. absurd (cc),
  λ h. elim h [ inl a ↦ absurd (ground (arith, ip.1 a)) | inr b ↦ absurd (ground (arith, b.0)) ],
)
blocked_keys false true false ip own = (λ h. inr (refl, own.0 refl), λ h. refl)
blocked_keys false false e ip own = (
  λ h. absurd (ground arith),
  λ h. elim h [
    | inl a ↦ absurd (ground (arith, ip.1 a))
    | inr b ↦ absurd (ground (arith, own.1 b.1))
  ],
)

-- Some key of a request is full: its address's, or its subject's if it has one.
any_full-keys :
    (h : Digest) (c : Config) (now : Time) (route client_ip subject : Text) (bs : Buckets)
    → any_full c now (auth_rate_keys h route client_ip subject) bs ≡ (
        is_full c now (bucket_of (auth_rate_key route (text "ip") client_ip) bs)
        || (if is_empty (trim_space subject)
            then false
            else is_full c now (
                bucket_of
                  (auth_rate_key route (text "subject") (h.hex_of_lower (trim_space subject)))
                  bs)
              || false))
unfolding any_full auth_rate_keys
any_full-keys h c now route client_ip subject bs =
    elim (Bool-cases (is_empty (trim_space subject))) [
      | inl blank ↦ rw blank refl
      | inr named ↦ rw named refl
    ]

-- An enabled limiter, which stores each key once, refuses a request exactly where the stored bucket
-- of the client's address, or that of the subject if there is one, has an open window with as many
-- attempts as the limit.
pub allow_iff :
    (h : Digest) (c : Config) (now : Time) (route client_ip subject : Text) (bs : Buckets)
    → c.enabled ≡ true
    → IsMap bs
    → ((allow h c now route client_ip subject bs).0 ≡ false) ↔ (
        IsBlocked c now bs (auth_rate_key route (text "ip") client_ip)
        ⊎ ((is_empty (trim_space subject) ≡ false)
            × IsBlocked c now bs
                (auth_rate_key route (text "subject") (h.hex_of_lower (trim_space subject)))))
unfolding allow
allow_iff h c now route client_ip subject bs on m =
    let same = allow_keys_iff c now (auth_rate_keys h route client_ip subject) bs on in
    let ip = full-IsBlocked c now (auth_rate_key route (text "ip") client_ip) bs m in
    let own =
      full-IsBlocked c now
        (auth_rate_key route (text "subject") (h.hex_of_lower (trim_space subject))) bs m in
    rw (same, any_full-keys h c now route client_ip subject (prune_locked now bs))
      (blocked_keys _ _ (is_empty (trim_space subject)) ip own)
