-- ===== src/Tasks/Overlap/Dedupe.antt =====
-- task.service.ts, dedupeById: what stays.
use text.Mathlib.Text.{◌==◌ as str_eq}
use text.Mathlib.TextEquality.{eq_iff}
use mathlib.Core.Bool.{true≢false}
use cue_api.Common.{
  ◌≡◌, ◌≢◌, refl, sym, ap, ◌∙◌, subst, inl, inr, String, Bool, true, false, List, [], ◌∷◌,
  if◌then◌else◌, arith, any_of, Bool-cases, In, All-of_In, Pairwise,
}
use cue_api.Tasks.Types.{TaskRow}
use cue_api.Tasks.Overlap.{dedupe_from, dedupe_by_id}

-- Whether an id was seen.
abbrev seen_in : List String → TaskRow → Bool
seen_in seen x = any_of (str_eq x.id) seen

-- No id stands twice.
abbrev pub UniqueIds : List TaskRow → Type 0
UniqueIds = Pairwise (λ x y. y.id ≢ x.id)

dedupe_from-In :
    (seen : List String) (rows : List TaskRow) (x : TaskRow)
    → In x (dedupe_from seen rows)
    → In x rows × (seen_in seen x ≡ false)
unfolding dedupe_from
dedupe_from-In seen [] x h = absurd h
dedupe_from-In seen (y ∷ rows) x h = elim (Bool-cases (seen_in seen y)) [
  | inl e ↦
      let (i, n) = dedupe_from-In seen rows x (
        subst (λ b. In x (if b then dedupe_from seen rows else y ∷ dedupe_from (y.id ∷ seen) rows))
          e h) in
      (inr i, n)
  | inr e ↦
      elim (subst
        (λ b. In x (if b then dedupe_from seen rows else y ∷ dedupe_from (y.id ∷ seen) rows)) e h) [
          | inl same ↦ (inl same, ap (seen_in seen) same ∙ e)
          | inr i ↦ let (j, n) = dedupe_from-In (y.id ∷ seen) rows x i in (inr j, ground arith)
        ]
]

In-dedupe_from :
    (seen : List String) (rows : List TaskRow) (x : TaskRow)
    → ((y : TaskRow) → In y rows → y.id ≡ x.id → y ≡ x)
    → In x rows
    → seen_in seen x ≡ false
    → In x (dedupe_from seen rows)
unfolding dedupe_from
In-dedupe_from seen [] x keyed h n = h
In-dedupe_from seen (y ∷ rows) x keyed h n = elim (Bool-cases (str_eq x.id y.id)) [
  | inl e ↦
      let same = keyed y (inl refl) (sym ((eq_iff x.id y.id).0 e)) in
      let unseen = ap (seen_in seen) same ∙ n in rw unseen (inl (sym same))
  | inr e ↦ elim (Bool-cases (seen_in seen y)) [
    | inl s ↦ rw s (In-dedupe_from seen rows x (λ z i. keyed z (inr i)) (later (sym e) h) n)
    | inr s ↦ rw s (
        inr (
          In-dedupe_from (y.id ∷ seen) rows x (λ z i. keyed z (inr i)) (later (sym e) h)
            (rw (e, n) refl)))
  ]
]
  where
    later : false ≡ str_eq x.id y.id → In x (y ∷ rows) → In x rows
    later e (inl same) =
        absurd (true≢false (sym ((eq_iff x.id y.id).1 (ap (λ z. z.id) same)) ∙ sym e))
    later e (inr i) = i

dedupe_from-UniqueIds :
    (seen : List String) (rows : List TaskRow) → UniqueIds (dedupe_from seen rows)
unfolding dedupe_from
dedupe_from-UniqueIds seen [] = tt
dedupe_from-UniqueIds seen (y ∷ rows) = elim (Bool-cases (seen_in seen y)) [
  | inl s ↦ rw s (dedupe_from-UniqueIds seen rows)
  | inr s ↦ rw s (
    All-of_In _ (dedupe_from (y.id ∷ seen) rows)
        (λ z i k. fresh z (dedupe_from-In (y.id ∷ seen) rows z i).1 k),
    dedupe_from-UniqueIds (y.id ∷ seen) rows,
  )
]
  where
    fresh : (z : TaskRow) → seen_in (y.id ∷ seen) z ≡ false → z.id ≡ y.id → ⊥
    fresh z n k = let e : str_eq z.id y.id ≡ true = (eq_iff z.id y.id).1 k in ground arith

pub dedupe_by_id-UniqueIds : (rows : List TaskRow) → UniqueIds (dedupe_by_id rows)
unfolding dedupe_by_id
dedupe_by_id-UniqueIds rows = dedupe_from-UniqueIds [] rows

pub dedupe_by_id-In : (rows : List TaskRow) (x : TaskRow) → In x (dedupe_by_id rows) → In x rows
unfolding dedupe_by_id
dedupe_by_id-In rows x h = (dedupe_from-In [] rows x h).0

pub In-dedupe_by_id :
    (rows : List TaskRow) (x : TaskRow)
    → ((y : TaskRow) → In y rows → y.id ≡ x.id → y ≡ x)
    → In x rows
    → In x (dedupe_by_id rows)
unfolding dedupe_by_id
In-dedupe_by_id rows x keyed h = In-dedupe_from [] rows x keyed h refl
