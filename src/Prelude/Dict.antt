-- ===== src/Prelude/Dict.antt =====
-- A Go map with string keys as an association list; iteration is only used where the result is
-- sorted afterwards. In a well-keyed dictionary no key occurs twice and each value holds its key.
use mathlib.Core.Path.{◌≡◌, refl, ◌∙◌}
use mathlib.Core.Bool.{Bool, false}
use mathlib.Core.Option.{Option, none, some}
use mathlib.Core.List.{List, [], ◌∷◌}
use native.Mathlib.Omega.{arith}
use accounting.Prelude.Tests.{if◌then◌else◌}
use accounting.Prelude.Lists.{All, All-imp}
use accounting.Prelude.Search.{find, AtMostOnce}
use accounting.Prelude.Text.{Text, text_eq, text_eq_iff}

abbrev pub Dict {ℓ} : Type ℓ → Type ℓ
Dict V = List (Text × V)

module _ {ℓ} {V : Type ℓ} where
  unfoldable pub lookup : Text → Dict V → Option V
  lookup k [] = none
  lookup k ((j, v) ∷ d) = if text_eq j k then some v else lookup k d

  -- `d[k] = v`
  unfoldable pub insert : Text → V → Dict V → Dict V
  insert k v [] = (k, v) ∷ []
  insert k v ((j, w) ∷ d) = if text_eq j k then (k, v) ∷ d else (j, w) ∷ insert k v d

  -- `delete(d, k)`
  unfoldable pub erase : Text → Dict V → Dict V
  erase k [] = []
  erase k ((j, w) ∷ d) = if text_eq j k then d else (j, w) ∷ erase k d

  -- The values, as a `for` over the map visits them.
  unfoldable pub values : Dict V → List V
  values [] = []
  values ((j, w) ∷ d) = w ∷ values d

  pub lookup-insert :
      (k j : Text) (v : V) (d : Dict V)
      → lookup j (insert k v d) ≡ (if text_eq k j then some v else lookup j d)
  unfolding lookup insert
  lookup-insert k j v [] = refl
  lookup-insert k j v ((i, w) ∷ d) =
      ground (arith, text_eq_iff k j, text_eq_iff i k, text_eq_iff i j, lookup-insert k j v d)

  module _ (key : V → Text) where
    abbrev pub WellKeyed : Dict V → Type ℓ
    WellKeyed [] = Unit
    WellKeyed ((j, w) ∷ d) = (j ≡ key w) × (lookup j d ≡ none) × WellKeyed d

    pub lookup_key : (k : Text) (v : V) (d : Dict V) → WellKeyed d → lookup k d ≡ some v → key v ≡ k
    unfolding lookup
    lookup_key k v [] h e = absurd (cc)
    lookup_key k v ((j, w) ∷ d) h e = ground (arith, text_eq_iff j k, lookup_key k v d h.2)

    pub insert-WellKeyed : (v : V) (d : Dict V) → WellKeyed d → WellKeyed (insert (key v) v d)
    unfolding lookup insert
    insert-WellKeyed v [] h = (refl, refl, tt)
    insert-WellKeyed v ((j, w) ∷ d) h = ground (
      arith,
      text_eq_iff j (key v),
      text_eq_iff (key v) j,
      insert-WellKeyed v d h.2,
      lookup-insert (key v) j v d,
    )

    lookup-erase_ne :
        (k j : Text) (d : Dict V) → text_eq k j ≡ false → lookup j (erase k d) ≡ lookup j d
    unfolding lookup erase
    lookup-erase_ne k j [] n = refl
    lookup-erase_ne k j ((i, w) ∷ d) n =
        ground (arith, text_eq_iff k j, text_eq_iff i k, text_eq_iff i j, lookup-erase_ne k j d n)

    lookup-erase_self : (k : Text) (d : Dict V) → WellKeyed d → lookup k (erase k d) ≡ none
    unfolding lookup erase
    lookup-erase_self k [] h = refl
    lookup-erase_self k ((i, w) ∷ d) h = ground (arith, text_eq_iff i k, lookup-erase_self k d h.2)

    pub lookup-erase :
        (k j : Text) (d : Dict V)
        → WellKeyed d
        → lookup j (erase k d) ≡ (if text_eq k j then none else lookup j d)
    lookup-erase k j d h =
        ground (arith, text_eq_iff k j, lookup-erase_self k d h, lookup-erase_ne k j d)

    pub erase-WellKeyed : (k : Text) (d : Dict V) → WellKeyed d → WellKeyed (erase k d)
    unfolding erase
    erase-WellKeyed k [] h = tt
    erase-WellKeyed k ((j, w) ∷ d) h =
        ground
          (arith, erase-WellKeyed k d h.2, text_eq_iff j k, text_eq_iff k j, lookup-erase k j d h.2)

    abbrev pub has_key : Text → V → Bool
    has_key k v = text_eq (key v) k

    -- A search among the values by their own key is a lookup.
    pub find-values :
        (k : Text) (d : Dict V) → WellKeyed d → find (has_key k) (values d) ≡ lookup k d
    unfolding find values lookup
    find-values k [] h = refl
    find-values k ((j, w) ∷ d) h = rw (← h.0, find-values k d h.2)

    pub values-AtMostOnce :
        (k : Text) (d : Dict V) → WellKeyed d → AtMostOnce (has_key k) (values d)
    unfolding values
    values-AtMostOnce k [] h = tt
    values-AtMostOnce k ((j, w) ∷ d) h = (
      λ t. find-values k d h.2 ∙ ground (arith, text_eq_iff (key w) k),
      values-AtMostOnce k d h.2,
    )

    pub values-All : (d : Dict V) → WellKeyed d → All (λ v. lookup (key v) d ≡ some v) (values d)
    unfolding values lookup
    values-All [] h = tt
    values-All ((j, w) ∷ d) h = (
      ground (arith, text_eq_iff j (key w)),
      All-imp _ _ (values d) (λ v e. ground (arith, text_eq_iff j (key v))) (values-All d h.2),
    )
