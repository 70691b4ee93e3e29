-- ===== src/Audit/Metadata.antt =====
-- backend/internal/audit/service.go: which metadata of a request reaches the log.
use accounting.Audit.Model.{Codec}
use accounting.Prelude.{
  All, Bool, Bool-cases, [], arith, false, if◌then◌else◌, inl, inr, length, ltb, ℕ, ◌||◌, ◌∷◌, ◌≡◌,
  ◌≤◌,
}
use accounting.Prelude.Dict.{Dict, insert}
use accounting.Prelude.Text.{Text, is_empty, text, text_eq, trim_space}
use accounting.Prelude.Text.Bytes.{
  byte_length, cut_bytes, has_substring, length-cut_bytes, length-le-byte_length,
}

-- `isSensitiveMetadataKey`
unfoldable pub is_sensitive_metadata_key : Codec → Text → Bool
is_sensitive_metadata_key c key =
    has_substring (c.to_lower key) (text "password")
    || has_substring (c.to_lower key) (text "token")
    || has_substring (c.to_lower key) (text "secret")
    || has_substring (c.to_lower key) (text "code")

abbrev pub max_value_bytes : ℕ
max_value_bytes = 256

unfoldable pub clip_value : Text → Text
clip_value value =
    if ltb max_value_bytes (byte_length value) then cut_bytes max_value_bytes value else value

-- One turn of the loop of `sanitizeMetadata`.
unfoldable pub add_safe : Codec → Text → Text → Dict Text → Dict Text
add_safe c key value safe =
    if is_empty (trim_space key)
      || is_empty (trim_space value)
      || is_sensitive_metadata_key c (trim_space key)
    then safe
    else insert (trim_space key) (clip_value (trim_space value)) safe

unfoldable pub sanitize_from : Codec → Dict Text → Dict Text → Dict Text
sanitize_from c [] safe = safe
sanitize_from c ((key, value) ∷ rest) safe = sanitize_from c rest (add_safe c key value safe)

-- `sanitizeMetadata`
unfoldable pub sanitize_metadata : Codec → Dict Text → Dict Text
sanitize_metadata c metadata = sanitize_from c metadata []

-- What the log may hold of a key and its value.
abbrev pub IsSafe : Codec → Text × Text → Type 0
IsSafe c (key, value) =
    (is_empty key ≡ false)
    × (has_substring (c.to_lower key) (text "password") ≡ false)
    × (has_substring (c.to_lower key) (text "token") ≡ false)
    × (has_substring (c.to_lower key) (text "secret") ≡ false)
    × (has_substring (c.to_lower key) (text "code") ≡ false)
    × (length value ≤ max_value_bytes)

length-clip_value : (value : Text) → length (clip_value value) ≤ max_value_bytes
unfolding clip_value
length-clip_value value =
    ground (arith, length-le-byte_length value, length-cut_bytes max_value_bytes value)

insert-All :
    (P : Text × Text → Type 0) (k v : Text) (d : Dict Text)
    → P (k, v)
    → All P d
    → All P (insert k v d)
unfolding insert
insert-All P k v [] p h = (p, tt)
insert-All P k v ((j, w) ∷ d) p h = elim (Bool-cases (text_eq j k)) [
  | inl same ↦ rw same (p, h.1)
  | inr other ↦ rw other (h.0, insert-All P k v d p h.1)
]

add_safe-IsSafe :
    (c : Codec) (key value : Text) (safe : Dict Text)
    → All (IsSafe c) safe
    → All (IsSafe c) (add_safe c key value safe)
unfolding add_safe is_sensitive_metadata_key
add_safe-IsSafe c key value safe h =
    elim (Bool-cases (
      is_empty (trim_space key)
      || is_empty (trim_space value)
      || is_sensitive_metadata_key c (trim_space key))) [
        | inl skipped ↦ rw skipped h
        | inr kept ↦ rw kept (
            insert-All (IsSafe c) (trim_space key) (clip_value (trim_space value)) safe
              (
                ground arith,
                ground arith,
                ground arith,
                ground arith,
                ground arith,
                length-clip_value (trim_space value),
              )
              h)
      ]

sanitize_from-IsSafe :
    (c : Codec) (metadata safe : Dict Text)
    → All (IsSafe c) safe
    → All (IsSafe c) (sanitize_from c metadata safe)
unfolding sanitize_from
sanitize_from-IsSafe c [] safe h = h
sanitize_from-IsSafe c ((key, value) ∷ rest) safe h =
    sanitize_from-IsSafe c rest (add_safe c key value safe) (add_safe-IsSafe c key value safe h)

-- Sanitised metadata has no empty key, no key with `password`, `token`, `secret` or `code` in it
-- in whatever case, and no value longer than 256 characters.
pub sanitize_metadata-IsSafe :
    (c : Codec) (metadata : Dict Text) → All (IsSafe c) (sanitize_metadata c metadata)
unfolding sanitize_metadata
sanitize_metadata-IsSafe c metadata = sanitize_from-IsSafe c metadata [] tt
