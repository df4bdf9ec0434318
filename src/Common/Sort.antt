-- ===== src/Common/Sort.antt =====
-- Sorting by a numeric key: `xs.sort((left, right) => key(left) - key(right))`, which is stable.
use Prim.Native.Nat.{ℕ, ◌<◌}
use mathlib.Core.Path.{◌≡◌, refl}
use mathlib.Core.Bool.{false, ◌||◌}
use mathlib.Core.List.{List, [], ◌∷◌, map}
use native.Mathlib.Omega.{arith}
use cue_api.Common.Tests.{leb, ◌==◌, if◌then◌else◌}
use cue_api.Common.Lists.{All, includes}
use cue_api.Common.Monotone.{Ascending}

-- No number stands twice.
abbrev pub Distinct : List ℕ → Type 0
Distinct [] = Unit {0}
Distinct (x ∷ xs) = (includes xs x ≡ false) × Distinct xs

module _ {ℓ} {A : Type ℓ} (key : A → ℕ) where
  insert_by : A → List A → List A
  insert_by x [] = x ∷ []
  insert_by x (y ∷ ys) =
      let later = insert_by x ys in if leb (key x) (key y) then x ∷ y ∷ ys else y ∷ later

  unfoldable pub sort_by : List A → List A
  unfolding insert_by
  sort_by [] = []
  sort_by (x ∷ xs) = insert_by x (sort_by xs)

  includes-insert_by :
      (x : A) (ys : List A) (k : ℕ)
      → includes (map key (insert_by x ys)) k ≡ (key x == k || includes (map key ys) k)
  unfolding insert_by
  includes-insert_by x [] k = refl
  includes-insert_by x (y ∷ ys) k = ground (arith, includes-insert_by x ys k)

  pub includes-sort_by :
      (xs : List A) (k : ℕ) → includes (map key (sort_by xs)) k ≡ includes (map key xs) k
  unfolding sort_by
  includes-sort_by [] k = refl
  includes-sort_by (x ∷ xs) k =
      ground (arith, includes-insert_by x (sort_by xs) k, includes-sort_by xs k)

  insert_by-above :
      (n : ℕ) (x : A) (ys : List A)
      → n < key x
      → All (λ y. n < y) (map key ys)
      → All (λ y. n < y) (map key (insert_by x ys))
  unfolding insert_by
  insert_by-above n x [] h k = (h, tt)
  insert_by-above n x (y ∷ ys) h k = ground (arith, insert_by-above n x ys h k.1)

  above_trans :
      (m n : ℕ) (ys : List A)
      → m < n
      → All (λ y. n < y) (map key ys)
      → All (λ y. m < y) (map key ys)
  above_trans m n [] h k = tt
  above_trans m n (y ∷ ys) h (p, k) = (omega arith, above_trans m n ys h k)

  insert_by-Ascending :
      (x : A) (ys : List A)
      → includes (map key ys) (key x) ≡ false
      → Ascending (map key ys)
      → Ascending (map key (insert_by x ys))
  unfolding insert_by
  insert_by-Ascending x [] h s = (tt, tt)
  insert_by-Ascending x (y ∷ ys) h s = ground (
    arith,
    insert_by-Ascending x ys,
    insert_by-above (key y) x ys,
    above_trans (key x) (key y) ys,
  )

  -- Sorting a list with distinct keys makes the keys strictly ascending.
  pub sort_by-Ascending : (xs : List A) → Distinct (map key xs) → Ascending (map key (sort_by xs))
  unfolding sort_by
  sort_by-Ascending [] h = tt
  sort_by-Ascending (x ∷ xs) (new, h) =
      insert_by-Ascending x (sort_by xs) (ground (arith, includes-sort_by xs (key x)))
        (sort_by-Ascending xs h)

  module _ {κ} (P : A → Type κ) where
    insert_by-All : (x : A) (ys : List A) → P x → All P ys → All P (insert_by x ys)
    unfolding insert_by
    insert_by-All x [] p h = (p, tt)
    insert_by-All x (y ∷ ys) p h = ground (arith, insert_by-All x ys p h.1)

    pub sort_by-All : (xs : List A) → All P xs → All P (sort_by xs)
    unfolding sort_by
    sort_by-All [] h = tt
    sort_by-All (x ∷ xs) (p, h) = insert_by-All x (sort_by xs) p (sort_by-All xs h)
