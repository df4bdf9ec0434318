-- ===== src/Common/Membership.antt =====
-- What stands in a list.
use mathlib.Core.Path.{◌≡◌, refl, sym, ap, subst, ◌∙◌}
use mathlib.Core.Logic.{◌↔◌, ◌⊎◌, inl, inr}
use mathlib.Core.Bool.{Bool, true, true≢false}
use mathlib.Core.List.{List, [], ◌∷◌, ◌++◌, map}
use native.Mathlib.Omega.{arith}
use cue_api.Common.Tests.{Bool-cases}
use cue_api.Common.Lists.{All, filter_by, any_of}

module _ {A : Type 0} where
  abbrev pub In : A → List A → Type 0
  In x [] = ⊥
  In x (y ∷ ys) = (x ≡ y) ⊎ In x ys

  pub In-left : (x : A) (xs ys : List A) → In x xs → In x (xs ++ ys)
  In-left x [] ys h = absurd h
  In-left x (z ∷ xs) ys (inl e) = inl e
  In-left x (z ∷ xs) ys (inr h) = inr (In-left x xs ys h)

  pub In-right : (x : A) (xs ys : List A) → In x ys → In x (xs ++ ys)
  In-right x [] ys h = h
  In-right x (z ∷ xs) ys h = inr (In-right x xs ys h)

  pub In-append : (x : A) (xs ys : List A) → In x (xs ++ ys) → In x xs ⊎ In x ys
  In-append x [] ys h = inr h
  In-append x (z ∷ xs) ys (inl e) = inl (inl e)
  In-append x (z ∷ xs) ys (inr h) = elim (In-append x xs ys h) [
    | inl k ↦ inl (inr k)
    | inr k ↦ inr k
  ]

  pub In-filter_by :
      (p : A → Bool) (x : A) (xs : List A) → In x (filter_by p xs) ↔ (In x xs × (p x ≡ true))
  In-filter_by p x [] = (λ h. absurd h, λ h. h.0)
  In-filter_by p x (y ∷ ys) = elim (Bool-cases (p y)) [
    | inl e ↦ rw e (
      λ h. elim h [
        | inl same ↦ (inl same, subst (λ z. p z ≡ true) (sym same) e)
        | inr k ↦ (inr ((In-filter_by p x ys).0 k).0, ((In-filter_by p x ys).0 k).1)
      ],
      λ h. elim h.0 [ inl same ↦ inl same | inr k ↦ inr ((In-filter_by p x ys).1 (k, h.1)) ],
    )
    | inr e ↦ rw e (
      λ h. (inr ((In-filter_by p x ys).0 h).0, ((In-filter_by p x ys).0 h).1),
      λ h. elim h.0 [
        | inl same ↦ absurd (true≢false (sym h.1 ∙ ap p same ∙ e))
        | inr k ↦ (In-filter_by p x ys).1 (k, h.1)
      ],
    )
  ]

  module _ {κ} (P : A → Type κ) where
    pub All-In : (xs : List A) (x : A) → All P xs → In x xs → P x
    All-In [] x h k = absurd k
    All-In (y ∷ ys) x (p, h) (inl e) = subst P (sym e) p
    All-In (y ∷ ys) x (p, h) (inr k) = All-In ys x h k

    pub All-of_In : (xs : List A) → ((x : A) → In x xs → P x) → All P xs
    All-of_In [] h = tt
    All-of_In (x ∷ xs) h = (h x (inl refl), All-of_In xs (λ y k. h y (inr k)))

pub In-map : {A B : Type 0} (f : A → B) (x : A) (xs : List A) → In x xs → In (f x) (map f xs)
In-map f x [] h = absurd h
In-map f x (y ∷ ys) (inl e) = inl (ap f e)
In-map f x (y ∷ ys) (inr h) = inr (In-map f x ys h)

pub In-map-inv :
    {A B : Type 0} (f : A → B) (b : B) (xs : List A)
    → In b (map f xs)
    → (x : A) × In x xs × (b ≡ f x)
In-map-inv f b [] h = absurd h
In-map-inv f b (x ∷ xs) (inl e) = (x, inl refl, e)
In-map-inv f b (x ∷ xs) (inr h) = let (y, k, e) = In-map-inv f b xs h in (y, inr k, e)

-- The lists of the elements, one after the other.
abbrev pub flat_map : {A B : Type 0} → (A → List B) → List A → List B
flat_map f [] = []
flat_map f (x ∷ xs) = f x ++ flat_map f xs

module _ {A B : Type 0} (f : A → List B) (b : B) where
  pub In-flat_map : (xs : List A) → In b (flat_map f xs) ↔ ((x : A) × In x xs × In b (f x))
  In-flat_map xs = (there xs, λ (x, i, h). here xs x i h)
    where
      there : (ys : List A) → In b (flat_map f ys) → (x : A) × In x ys × In b (f x)
      there [] h = absurd h
      there (y ∷ ys) h = elim (In-append b (f y) (flat_map f ys) h) [
        | inl k ↦ (y, inl refl, k)
        | inr k ↦ let (x, i, m) = there ys k in (x, inr i, m)
      ]

      here : (ys : List A) (x : A) → In x ys → In b (f x) → In b (flat_map f ys)
      here [] x i h = absurd i
      here (y ∷ ys) x (inl e) h = In-left b (f y) _ (subst (λ z. In b (f z)) e h)
      here (y ∷ ys) x (inr i) h = In-right b (f y) _ (here ys x i h)

module _ {A : Type 0} (p : A → Bool) where
  pub any_of-In : (xs : List A) → (any_of p xs ≡ true) ↔ ((x : A) × In x xs × (p x ≡ true))
  any_of-In xs = (there xs, λ (x, i, h). here xs x i h)
    where
      there : (ys : List A) → any_of p ys ≡ true → (x : A) × In x ys × (p x ≡ true)
      there [] h = absurd (true≢false (sym h))
      there (y ∷ ys) h = elim (Bool-cases (p y)) [
        | inl e ↦ (y, inl refl, e)
        | inr e ↦ let (x, i, k) = there ys (ground arith) in (x, inr i, k)
      ]

      here : (ys : List A) (x : A) → In x ys → p x ≡ true → any_of p ys ≡ true
      here [] x i h = absurd i
      here (y ∷ ys) x (inl e) h = rw (sym (ap p e) ∙ h) refl
      here (y ∷ ys) x (inr i) h = let k = here ys x i h in ground arith
