-- ===== src/Ledger/Store/Updates.antt =====
-- What appending to a list, and replacing or deleting its first match, does to searches in it.
use accounting.Ledger.Store.Items.{delete_first, replace_first}
use accounting.Prelude.{
  AtMostOnce, Bool, Bool-cases, List, [], arith, false, find, if◌then◌else◌, inl, inr, is_some,
  none, refl, some, true, ◌++◌, ◌∙◌, ◌∷◌, ◌≡◌,
}

module _ {A : Type 0} (p : A → Bool) where
  pub find-snoc :
      (xs : List A) (e : A)
      → (p e ≡ true → find p xs ≡ none)
      → find p (xs ++ e ∷ []) ≡ (if p e then some e else find p xs)
  unfolding find
  find-snoc [] e h = refl
  find-snoc (x ∷ xs) e h = ground (arith, find-snoc xs e)

  pub AtMostOnce-snoc :
      (xs : List A) (e : A)
      → AtMostOnce p xs
      → (p e ≡ true → find p xs ≡ none)
      → AtMostOnce p (xs ++ e ∷ [])
  unfolding find
  AtMostOnce-snoc [] e h k = (λ _. refl, tt)
  AtMostOnce-snoc (x ∷ xs) e h k = (
    λ t. find-snoc xs e (λ u. h.0 t) ∙ ground (arith, h.0 t, k),
    AtMostOnce-snoc xs e h.1 (λ t. ground (arith, k t)),
  )

  module _ (q : A → Bool) where
    pub find-delete_ne :
        (xs : List A)
        → ((x : A) → q x ≡ true → p x ≡ false)
        → find p (delete_first q xs) ≡ find p xs
    unfolding find delete_first
    find-delete_ne [] h = refl
    find-delete_ne (x ∷ xs) h = ground (arith, h x, find-delete_ne xs h)

    none-delete : (xs : List A) → find p xs ≡ none → find p (delete_first q xs) ≡ none
    unfolding find delete_first
    none-delete [] h = refl
    none-delete (x ∷ xs) h = ground (arith, none-delete xs)

    pub AtMostOnce-delete : (xs : List A) → AtMostOnce p xs → AtMostOnce p (delete_first q xs)
    unfolding delete_first
    AtMostOnce-delete [] h = tt
    AtMostOnce-delete (x ∷ xs) h = elim (Bool-cases (q x)) [
      | inl out ↦ rw out h.1
      | inr stays ↦ rw stays (λ t. none-delete xs (h.0 t), AtMostOnce-delete xs h.1)
    ]

    module _ (e : A) where
      pub find-replace_ne :
          (xs : List A)
          → p e ≡ false
          → ((x : A) → q x ≡ true → p x ≡ false)
          → find p (replace_first q e xs) ≡ find p xs
      unfolding find replace_first
      find-replace_ne [] n h = refl
      find-replace_ne (x ∷ xs) n h = ground (arith, h x, find-replace_ne xs n h)

      none-replace :
          (xs : List A)
          → ((x : A) → q x ≡ true → p x ≡ p e)
          → find p xs ≡ none
          → find p (replace_first q e xs) ≡ none
      unfolding find replace_first
      none-replace [] h k = refl
      none-replace (x ∷ xs) h k = ground (arith, h x, none-replace xs h)

      pub AtMostOnce-replace :
          (xs : List A)
          → ((x : A) → q x ≡ true → p x ≡ p e)
          → AtMostOnce p xs
          → AtMostOnce p (replace_first q e xs)
      unfolding replace_first
      AtMostOnce-replace [] h k = tt
      AtMostOnce-replace (x ∷ xs) h k = elim (Bool-cases (q x)) [
        | inl here ↦ rw here (λ t. k.0 (h x here ∙ t), k.1)
        | inr later ↦ rw later (λ t. none-replace xs h (k.0 t), AtMostOnce-replace xs h k.1)
      ]

module _ {A : Type 0} (q : A → Bool) (e : A) where
  pub find-replace_self :
      (xs : List A)
      → q e ≡ true
      → is_some (find q xs) ≡ true
      → find q (replace_first q e xs) ≡ some e
  unfolding find replace_first
  find-replace_self [] h k = absurd (cc)
  find-replace_self (x ∷ xs) h k = ground (arith, find-replace_self xs h)

pub find-delete_self :
    {A : Type 0} (q : A → Bool) (xs : List A) → AtMostOnce q xs → find q (delete_first q xs) ≡ none
unfolding find delete_first
find-delete_self q [] h = refl
find-delete_self q (x ∷ xs) h = ground (arith, h.0, find-delete_self q xs h.1)
