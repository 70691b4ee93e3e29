-- ===== src/Ledger/Service/Categories/Ancestors.antt =====
-- The chain of ancestors of a category, and how much fuel the loop over it takes.
use accounting.Ledger.Model.{Category}
use accounting.Ledger.Service.Categories.{find_last, has_category_id, meets, parent_of, parent_text}
use accounting.Prelude.{
  Bool, Bool-cases, List, [], ap, arith, false, if◌then◌else◌, inl, inr, length, refl, some, subst,
  suc, sym, true, zero, ℕ, ◌+◌, ◌<◌, ◌∙◌, ◌∷◌, ◌≡◌, ◌≢◌, ◌≤◌,
}
use accounting.Prelude.Text.{
  Text, is_empty, text_eq, text_eq-false, text_eq_iff, trim_left, trim_right, trim_space,
}
use accounting.Prelude.Text.Trim.{trim_space_twice}

-- The chain ends after as many steps.
abbrev pub EndsIn : (Text → Text) → ℕ → Text → Type 0
EndsIn parents zero id = is_empty id ≡ true
EndsIn parents (suc n) id = (is_empty id ≡ false) × EndsIn parents n (trim_space (parents id))

-- There is one number of steps.
EndsIn-unique :
    (parents : Text → Text) (m n : ℕ) (id : Text)
    → EndsIn parents m id
    → EndsIn parents n id
    → m ≡ n
EndsIn-unique parents zero zero id h k = refl
EndsIn-unique parents zero (suc n) id h k = absurd (ground (arith, k.0))
EndsIn-unique parents (suc m) zero id h k = absurd (ground (arith, h.0))
EndsIn-unique parents (suc m) (suc n) id h k = ap suc (EndsIn-unique parents m n _ h.1 k.1)

-- With more fuel than steps the loop says whether the chain meets the category.
pub meets_total :
    (parents : Text → Text) (category_id id : Text) (n fuel : ℕ)
    → EndsIn parents n id
    → n < fuel
    → (met : Bool) × (meets fuel parents category_id id ≡ some met)
unfolding meets
meets_total parents category_id id n zero h k = absurd (omega arith)
meets_total parents category_id id zero (suc fuel) h k = (false, rw h)
meets_total parents category_id id (suc n) (suc fuel) h k =
    let rest = meets_total parents category_id (trim_space (parents id)) n fuel h.1 (omega arith) in
    elim (Bool-cases (text_eq id category_id)) [
      | inl here ↦ (true, rw (h.0, here))
      | inr on ↦ (rest.0, rw (h.0, on) rest.1)
    ]

-- Two maps that agree except at one id, which the loop has not met on the way; only trimmed ids
-- are on the way.
pub EndsIn-unmet :
    (f g : Text → Text) (category_id id : Text) (n fuel : ℕ)
    → ((x : Text) → trim_space x ≡ x → text_eq x category_id ≡ false → g x ≡ f x)
    → trim_space id ≡ id
    → EndsIn f n id
    → meets fuel f category_id id ≡ some false
    → EndsIn g n id
unfolding meets
EndsIn-unmet f g category_id id n zero same t h k = absurd (cc)
EndsIn-unmet f g category_id id zero (suc fuel) same t h k = h
EndsIn-unmet f g category_id id (suc n) (suc fuel) same t h k =
    let away : text_eq id category_id ≡ false = ground (arith, h.0) in
    (
      h.0,
      subst (λ x. EndsIn g n (trim_space x)) (sym (same id t away))
          (EndsIn-unmet f g category_id (trim_space (f id)) n fuel same (trim_space_twice (f id))
            h.1 (ground (arith, h.0))),
    )

-- Two maps that agree except at one id, which no chain comes to.
pub EndsIn-apart :
    (f g : Text → Text) (category_id id : Text) (n : ℕ)
    → ((x : Text) → text_eq x category_id ≡ false → g x ≡ f x)
    → ((x : Text) → text_eq (trim_space (f x)) category_id ≡ false)
    → text_eq id category_id ≡ false
    → EndsIn f n id
    → EndsIn g n id
EndsIn-apart f g category_id id zero same fresh away h = h
EndsIn-apart f g category_id id (suc n) same fresh away h = (
  h.0,
  subst (λ x. EndsIn g n (trim_space x)) (sym (same id away))
      (EndsIn-apart f g category_id (trim_space (f id)) n same fresh (fresh id) h.1),
)

-- Where the chain behind one id ends in the changed map, every chain does.
pub EndsIn-redirect :
    (f g : Text → Text) (category_id id : Text) (m n : ℕ)
    → ((x : Text) → text_eq x category_id ≡ false → g x ≡ f x)
    → EndsIn g m (trim_space (g category_id))
    → EndsIn f n id
    → (k : ℕ) × EndsIn g k id
EndsIn-redirect f g category_id id m zero same new h = (0, h)
EndsIn-redirect f g category_id id m (suc n) same new h =
    elim (Bool-cases (text_eq id category_id)) [
      | inl here ↦ (
        suc m,
        (
          h.0,
          subst (λ x. EndsIn g m (trim_space (g x))) (sym ((text_eq_iff id category_id).0 here))
              new,
        ),
      )
      | inr away ↦
          let rest = EndsIn-redirect f g category_id (trim_space (f id)) m n same new h.1 in
          (
            suc rest.0,
            (h.0, subst (λ x. EndsIn g rest.0 (trim_space x)) (sym (same id away)) rest.1),
          )
    ]

remove : Text → List Category → List Category
remove id [] = []
remove id (c ∷ cs) = if has_category_id id c then remove id cs else c ∷ remove id cs

length-remove : (id : Text) (cs : List Category) → length (remove id cs) ≤ length cs
unfolding remove
length-remove id [] = omega arith
length-remove id (c ∷ cs) = ground (arith, length-remove id cs)

length-remove_found :
    (id : Text) (cs : List Category)
    → parent_of cs id ≢ []
    → suc (length (remove id cs)) ≤ length cs
unfolding remove parent_of find_last
length-remove_found id [] h = absurd (h refl)
length-remove_found id (c ∷ cs) h = elim (Bool-cases (has_category_id id c)) [
  | inl here ↦ rw here (omega (arith, length-remove id cs))
  | inr away ↦ rw away (omega (arith, length-remove_found id cs (λ e. h (ground (arith, e)))))
]

find_last-remove :
    (id x : Text) (cs : List Category)
    → text_eq x id ≡ false
    → find_last (has_category_id x) (remove id cs) ≡ find_last (has_category_id x) cs
unfolding find_last remove
find_last-remove id x [] n = refl
find_last-remove id x (c ∷ cs) n = elim (Bool-cases (has_category_id id c)) [
  | inl here ↦ rw here (
      find_last-remove id x cs n
      ∙ ground (arith, text_eq_iff c.id id, text_eq_iff c.id x, text_eq_iff x id))
  | inr away ↦ rw away (rw (find_last-remove id x cs n))
]

parent_of-remove :
    (id x : Text) (cs : List Category)
    → text_eq x id ≡ false
    → parent_of (remove id cs) x ≡ parent_of cs x
unfolding parent_of
parent_of-remove id x cs n = ap parent_text (find_last-remove id x cs n)

-- A shorter chain does not pass a category whose own chain is longer.
EndsIn-remove :
    (cs : List Category) (id x : Text) (m n : ℕ)
    → EndsIn (parent_of cs) m id
    → EndsIn (parent_of cs) n x
    → n < m
    → EndsIn (parent_of (remove id cs)) n x
EndsIn-remove cs id x m zero h k less = k
EndsIn-remove cs id x m (suc n) h k less =
    let away : text_eq x id ≡ false = text_eq-false x id (λ e. absurd (
      omega (
        arith,
        EndsIn-unique (parent_of cs) m (suc n) id h (subst (EndsIn (parent_of cs) (suc n)) e k),
      ))) in
    (
      k.0,
      rw (parent_of-remove id x cs away)
          (EndsIn-remove cs id (trim_space (parent_of cs x)) m n h k.1 (omega arith)),
    )

some_parent : (t : Text) → is_empty (trim_space t) ≡ false → t ≢ []
unfolding trim_space trim_left trim_right
some_parent [] h = absurd (cc)
some_parent (c ∷ t) h = cc

-- No chain is longer than the list of categories and one.
pub EndsIn-le :
    (n : ℕ) (cs : List Category) (id : Text) → EndsIn (parent_of cs) n id → n ≤ length cs + 1
EndsIn-le zero cs id h = omega arith
EndsIn-le (suc zero) cs id h = omega arith
EndsIn-le (suc (suc n)) cs id h =
    let parent = trim_space (parent_of cs id) in
    let found : parent_of cs id ≢ [] = λ e. some_parent (parent_of cs id) h.1.0 e in
    omega (
      arith,
      EndsIn-le (suc n) (remove id cs) parent
          (EndsIn-remove cs id parent (suc (suc n)) (suc n) h h.1 (omega arith)),
      length-remove_found id cs found,
    )
