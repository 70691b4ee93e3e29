-- ===== src/Ledger/Service/Entries/Tags.antt =====
-- The tags of an entry after normalisation.
use accounting.Ledger.Money.{contains}
use accounting.Ledger.Service.Entries.{normalize_tags, unique_trimmed}
use accounting.Prelude.{Bool-cases, List, [], ap, false, inl, inr, refl, ◌∷◌, ◌≡◌}
use accounting.Prelude.Text.{Text, is_empty, trim_space}
use accounting.Prelude.Text.Trim.{trim_space_twice}

-- Trimmed, not empty, and none among `seen` or before.
abbrev pub IsClean : List Text → List Text → Type 0
IsClean seen [] = Unit
IsClean seen (t ∷ ts) =
    (trim_space t ≡ t) × (is_empty t ≡ false) × (contains t seen ≡ false) × IsClean (t ∷ seen) ts

unique_trimmed-IsClean : (seen ts : List Text) → IsClean seen (unique_trimmed seen ts)
unfolding unique_trimmed
unique_trimmed-IsClean seen [] = tt
unique_trimmed-IsClean seen (t ∷ ts) = elim (Bool-cases (is_empty (trim_space t))) [
  | inl blank ↦ rw blank (unique_trimmed-IsClean seen ts)
  | inr text' ↦ elim (Bool-cases (contains (trim_space t) seen)) [
    | inl again ↦ rw (text', again) (unique_trimmed-IsClean seen ts)
    | inr fresh ↦
        rw (text', fresh)
          (trim_space_twice t, text', fresh, unique_trimmed-IsClean (trim_space t ∷ seen) ts)
  ]
]

unique_trimmed_id : (seen ts : List Text) → IsClean seen ts → unique_trimmed seen ts ≡ ts
unfolding unique_trimmed
unique_trimmed_id seen [] h = refl
unique_trimmed_id seen (t ∷ ts) h =
    rw (h.0, h.1, h.2) (ap (◌∷◌ t) (unique_trimmed_id (t ∷ seen) ts h.3))

-- Normalised tags are trimmed, not empty and pairwise different, and normalising them again changes
-- nothing.
pub normalize_tags-IsClean :
    (tags : List Text)
    → IsClean [] (normalize_tags tags)
      × (normalize_tags (normalize_tags tags) ≡ normalize_tags tags)
unfolding normalize_tags
normalize_tags-IsClean tags =
    let clean = unique_trimmed-IsClean [] tags in (clean, unique_trimmed_id [] _ clean)
