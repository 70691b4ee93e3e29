-- ===== src/RateLimiter/Window.antt =====
-- The limit holds in every window.
use accounting.Ledger.Money.{contains}
use accounting.Prelude.{
  All, Bool, Holds, List, Option-cases, [], arith, false, if◌then◌else◌, inl, inr, is_some, leb,
  not, refl, sym, true, ◌&&◌, ◌<◌, ◌||◌, ◌∙◌, ◌∷◌, ◌≡◌, ◌≤◌,
}
use accounting.Prelude.Dict.{insert, lookup, lookup-insert}
use accounting.Prelude.Text.{Text, text_eq, text_eq_iff}
use accounting.RateLimiter.{
  Bucket, Buckets, Config, Time, allow_keys, bucket_of, count_attempt, counted, find_exhausted,
  is_over, prune_locked,
}

-- A bucket whose window is open at `now`, and full.
abbrev pub is_full : Config → Time → Bucket → Bool
is_full c now b = not (is_over now b) && leb c.limit b.count

-- Some key of the request has a full bucket.
unfoldable pub any_full : Config → Time → List Text → Buckets → Bool
any_full c now [] bs = false
any_full c now (key ∷ keys) bs = is_full c now (bucket_of key bs) || any_full c now keys bs

pub find_exhausted-full :
    (c : Config) (now : Time) (keys : List Text) (bs : Buckets)
    → is_some (find_exhausted c now keys bs) ≡ any_full c now keys bs
unfolding find_exhausted any_full
find_exhausted-full c now [] bs = refl
find_exhausted-full c now (key ∷ keys) bs = ground (arith, find_exhausted-full c now keys bs)

-- An enabled limiter refuses a request exactly where one of its keys has an open window with as many
-- attempts as the limit.
pub allow_keys_iff :
    (c : Config) (now : Time) (keys : List Text) (bs : Buckets)
    → c.enabled ≡ true
    → (allow_keys c now keys bs).0 ≡ not (any_full c now keys (prune_locked now bs))
unfolding allow_keys
allow_keys_iff c now keys bs on =
    ground (arith, find_exhausted-full c now keys (prune_locked now bs))

-- The buckets of a request's keys are not full when it is counted.
pub none_full :
    (c : Config) (now : Time) (key : Text) (keys : List Text) (bs : Buckets)
    → any_full c now (key ∷ keys) bs ≡ false
    → (is_full c now (bucket_of key bs) ≡ false) × (any_full c now keys bs ≡ false)
unfolding any_full
none_full c now key keys bs h = ground arith

counted-le :
    (c : Config) (now : Time) (b : Bucket)
    → 0 < c.limit
    → is_full c now b ≡ false
    → (counted c now b).count ≤ c.limit
counted-le c now b pos open_ = ground arith

pub bucket_of-insert :
    (k j : Text) (b : Bucket) (bs : Buckets)
    → bucket_of j (insert k b bs) ≡ (if text_eq k j then b else bucket_of j bs)
bucket_of-insert k j b bs = rw (lookup-insert k j b bs) (ground arith)

-- No bucket counts more attempts than the limit.
abbrev pub IsWithin : Config → Buckets → Type 0
IsWithin c bs = All (λ e. e.1.count ≤ c.limit) bs

bucket_of-le :
    (c : Config) (k : Text) (bs : Buckets) → IsWithin c bs → (bucket_of k bs).count ≤ c.limit
unfolding lookup
bucket_of-le c k [] h = omega arith
bucket_of-le c k ((j, b) ∷ bs) h = ground (arith, bucket_of-le c k bs h.1)

insert-IsWithin :
    (c : Config) (k : Text) (b : Bucket) (bs : Buckets)
    → b.count ≤ c.limit
    → IsWithin c bs
    → IsWithin c (insert k b bs)
unfolding insert
insert-IsWithin c k b [] h w = (h, tt)
insert-IsWithin c k b ((j, x) ∷ bs) h w = ground (arith, insert-IsWithin c k b bs h w.1)

prune-IsWithin :
    (c : Config) (now : Time) (bs : Buckets) → IsWithin c bs → IsWithin c (prune_locked now bs)
unfolding prune_locked
prune-IsWithin c now [] w = tt
prune-IsWithin c now ((j, x) ∷ bs) w = ground (arith, prune-IsWithin c now bs w.1)

-- No key stands twice.
abbrev pub IsDistinct : List Text → Type 0
IsDistinct [] = Unit
IsDistinct (k ∷ ks) = (contains k ks ≡ false) × IsDistinct ks

any_full-insert :
    (c : Config) (now : Time) (k : Text) (b : Bucket) (keys : List Text) (bs : Buckets)
    → contains k keys ≡ false
    → any_full c now keys (insert k b bs) ≡ any_full c now keys bs
unfolding any_full contains
any_full-insert c now k b [] bs h = refl
any_full-insert c now k b (j ∷ keys) bs h = ground (
  arith,
  bucket_of-insert k j b bs,
  text_eq_iff k j,
  text_eq_iff j k,
  any_full-insert c now k b keys bs,
)

count_attempt-IsWithin :
    (c : Config) (now : Time) (keys : List Text) (bs : Buckets)
    → 0 < c.limit
    → IsDistinct keys
    → any_full c now keys bs ≡ false
    → IsWithin c bs
    → IsWithin c (count_attempt c now keys bs)
unfolding count_attempt
count_attempt-IsWithin c now [] bs pos d h w = w
count_attempt-IsWithin c now (k ∷ keys) bs pos d h w =
    let f = none_full c now k keys bs h in
    let b = counted c now (bucket_of k bs) in
    count_attempt-IsWithin c now keys (insert k b bs) pos d.1
      (any_full-insert c now k b keys bs d.0 ∙ f.1)
      (insert-IsWithin c k b bs (counted-le c now (bucket_of k bs) pos f.0) w)

refused-IsWithin :
    (c : Config) (now : Time) (keys : List Text) (bs : Buckets)
    → IsWithin c bs
    → Holds (IsWithin c) (find_exhausted c now keys bs)
unfolding find_exhausted
refused-IsWithin c now [] bs w = tt
refused-IsWithin c now (k ∷ keys) bs w = ground (
  arith,
  refused-IsWithin c now keys bs w,
  insert-IsWithin c k (record (bucket_of k bs) { last_seen = now }) bs,
  bucket_of-le c k bs w,
)

-- No request, allowed or refused, at any time, makes a bucket count more attempts than the limit.
pub allow_keys-IsWithin :
    (c : Config) (now : Time) (keys : List Text) (bs : Buckets)
    → 0 < c.limit
    → IsDistinct keys
    → IsWithin c bs
    → IsWithin c (allow_keys c now keys bs).1
unfolding allow_keys
allow_keys-IsWithin c now keys bs pos d w =
    elim (Option-cases (find_exhausted c now keys (prune_locked now bs))) [
      | inr (bs', e) ↦
          ground
            (arith, refused-IsWithin c now keys (prune_locked now bs) (prune-IsWithin c now bs w))
      | inl e ↦
          let free : any_full c now keys (prune_locked now bs) ≡ false =
            sym (find_exhausted-full c now keys (prune_locked now bs)) ∙ rw e refl in
          ground (
            arith,
            count_attempt-IsWithin c now keys (prune_locked now bs) pos d free
                (prune-IsWithin c now bs w),
          )
    ]
