-- ===== src/Common/Order.antt =====
-- Sorting by a comparison, stable as `Array.prototype.sort`.
use mathlib.Core.Path.{◌≡◌, sym, subst}
use mathlib.Core.Logic.{◌↔◌, ◌⊎◌, inl, inr}
use mathlib.Core.Bool.{Bool, true, false}
use mathlib.Core.List.{List, [], ◌∷◌}
use cue_api.Common.Tests.{if◌then◌else◌, Bool-cases}
use cue_api.Common.Lists.{All, filter_by}
use cue_api.Common.Membership.{In, In-filter_by, All-In, All-of_In}

module _ {A : Type 0} (le : A → A → Bool) where
  insert_with : A → List A → List A
  insert_with x [] = x ∷ []
  insert_with x (y ∷ ys) = let later = insert_with x ys in if le x y then x ∷ y ∷ ys else y ∷ later

  unfoldable pub sort_with : List A → List A
  unfolding insert_with
  sort_with [] = []
  sort_with (x ∷ xs) = insert_with x (sort_with xs)

  In-insert_with : (z x : A) (ys : List A) → In z (insert_with x ys) ↔ ((z ≡ x) ⊎ In z ys)
  unfolding insert_with
  In-insert_with z x [] = (λ h. h, λ h. h)
  In-insert_with z x (y ∷ ys) = elim (Bool-cases (le x y)) [
    | inl e ↦ rw e (λ h. h, λ h. h)
    | inr e ↦ rw e (
      λ h. elim h [
        | inl k ↦ inr (inl k)
        | inr k ↦ elim ((In-insert_with z x ys).0 k) [ inl m ↦ inl m | inr m ↦ inr (inr m) ]
      ],
      λ h. elim h [
        | inl k ↦ inr ((In-insert_with z x ys).1 (inl k))
        | inr k ↦ elim k [ inl m ↦ inl m | inr m ↦ inr ((In-insert_with z x ys).1 (inr m)) ]
      ],
    )
  ]

  -- Sorting keeps the elements.
  pub In-sort_with : (z : A) (xs : List A) → In z (sort_with xs) ↔ In z xs
  unfolding sort_with
  In-sort_with z [] = (λ h. h, λ h. h)
  In-sort_with z (x ∷ xs) = (
    λ h. elim ((In-insert_with z x (sort_with xs)).0 h) [
      | inl e ↦ inl e
      | inr k ↦ inr ((In-sort_with z xs).0 k)
    ],
    λ h.
        (In-insert_with z x (sort_with xs)).1
          (elim h [ inl e ↦ inl e | inr k ↦ inr ((In-sort_with z xs).1 k) ]),
  )

  -- Each element stands before the next.
  abbrev pub Sorted : List A → Type 0
  Sorted [] = Unit {0}
  Sorted (x ∷ []) = Unit {0}
  Sorted (x ∷ y ∷ ys) = (le x y ≡ true) × Sorted (y ∷ ys)

  module _ (total : (x y : A) → le x y ≡ false → le y x ≡ true) where
    insert_with-Sorted : (x : A) (ys : List A) → Sorted ys → Sorted (insert_with x ys)
    unfolding insert_with
    insert_with-Sorted x [] s = tt
    insert_with-Sorted x (y ∷ []) s = elim (Bool-cases (le x y)) [
      | inl e ↦ rw e (e, tt)
      | inr e ↦ rw e (total x y e, tt)
    ]
    insert_with-Sorted x (y ∷ z ∷ zs) (p, s) = elim (Bool-cases (le x y)) [
      | inl e ↦ rw e (e, (p, s))
      | inr e ↦ rw e (go e (Bool-cases (le x z)) (insert_with-Sorted x (z ∷ zs) s))
    ]
      where
        go :
            le x y ≡ false
            → (le x z ≡ true) ⊎ (le x z ≡ false)
            → Sorted (if le x z then x ∷ z ∷ zs else z ∷ insert_with x zs)
            → Sorted (y ∷ (if le x z then x ∷ z ∷ zs else z ∷ insert_with x zs))
        go n (inl e) h =
            rw e (
              total x y n,
              subst (λ b. Sorted (if b then x ∷ z ∷ zs else z ∷ insert_with x zs)) e h,
            )
        go n (inr e) h =
            rw e (p, subst (λ b. Sorted (if b then x ∷ z ∷ zs else z ∷ insert_with x zs)) e h)

    pub sort_with-Sorted : (xs : List A) → Sorted (sort_with xs)
    unfolding sort_with
    sort_with-Sorted [] = tt
    sort_with-Sorted (x ∷ xs) = insert_with-Sorted x (sort_with xs) (sort_with-Sorted xs)

-- Every two elements stand in the relation, the earlier with the later.
abbrev pub Pairwise {κ} : {A : Type 0} → (A → A → Type κ) → List A → Type κ
Pairwise rel [] = Unit {κ}
Pairwise rel (x ∷ xs) = All (rel x) xs × Pairwise rel xs

module _ {A : Type 0} (le : A → A → Bool) (rel : A → A → Type 0)
    (symmetric : (x y : A) → rel x y → rel y x) where
  insert_with-Pairwise :
      (x : A) (ys : List A) → All (rel x) ys → Pairwise rel ys → Pairwise rel (insert_with le x ys)
  unfolding insert_with
  insert_with-Pairwise x [] a p = (tt, tt)
  insert_with-Pairwise x (y ∷ ys) (xy, a) (b, p) = elim (Bool-cases (le x y)) [
    | inl e ↦ rw e ((xy, a), (b, p))
    | inr e ↦ rw e (
      All-of_In (rel y) (insert_with le x ys) (λ z i. elim ((In-insert_with le z x ys).0 i) [
        | inl same ↦ subst (rel y) (sym same) (symmetric x y xy)
        | inr k ↦ All-In (rel y) ys z b k
      ]),
      insert_with-Pairwise x ys a p,
    )
  ]

  -- Sorting keeps a symmetric relation of every two elements.
  pub sort_with-Pairwise : (xs : List A) → Pairwise rel xs → Pairwise rel (sort_with le xs)
  unfolding sort_with
  sort_with-Pairwise [] p = tt
  sort_with-Pairwise (x ∷ xs) (a, p) =
      insert_with-Pairwise x (sort_with le xs)
        (All-of_In (rel x) (sort_with le xs)
          (λ z i. All-In (rel x) xs z a ((In-sort_with le z xs).0 i)))
        (sort_with-Pairwise xs p)

pub filter_by-Pairwise :
    {A : Type 0} (rel : A → A → Type 0) (p : A → Bool) (xs : List A)
    → Pairwise rel xs
    → Pairwise rel (filter_by p xs)
filter_by-Pairwise rel p [] h = tt
filter_by-Pairwise rel p (x ∷ xs) (a, h) = elim (Bool-cases (p x)) [
  | inl e ↦ rw e (
    All-of_In (rel x) (filter_by p xs) (λ y i. All-In (rel x) xs y a ((In-filter_by p y xs).0 i).0),
    filter_by-Pairwise rel p xs h,
  )
  | inr e ↦ rw e (filter_by-Pairwise rel p xs h)
]
