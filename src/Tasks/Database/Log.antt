-- ===== src/Tasks/Database/Log.antt =====
-- A table as the log of its writes, to instantiate the queries.
use text.Mathlib.Text.{◌==◌ as str_eq}
use text.Mathlib.TextEquality.{eq_iff}
use mathlib.Core.Bool.{true≢false}
use cue_api.Common.{
  ◌≡◌, ◌≢◌, ◌⊎◌, refl, sym, ◌∙◌, ap, subst, String, Bool, true, false, not, Option, none, some,
  List, [], ◌∷◌, inl, inr, if◌then◌else◌, filter_by, Bool-cases, In, In-filter_by, All-of_In,
  filter_by-Pairwise, Pairwise, arith,
}
use cue_api.Tasks.Database.{Table, TableLaws}

pub data Write (Row : Type 0) : Type 0 where
  put : Row → Write Row
  erase : (Row → Bool) → Write Row

-- `[row] = rows`
abbrev first_of : {A : Type 0} → List A → Option A
first_of [] = none
first_of (x ∷ xs) = some x

first_of-some : {A : Type 0} (x : A) (xs : List A) → first_of xs ≡ some x → In x xs
first_of-some x [] h = cc
first_of-some x (y ∷ ys) h = inl (cc)

module _ {Row : Type 0} (id : Row → String) (live : Row → Bool) where
  abbrev other_id : Row → Row → Bool
  other_id x row = not (str_eq (id row) (id x))

  -- The rows that the writes leave, the latest first.
  abbrev pub rows_of : List (Write Row) → List Row
  rows_of [] = []
  rows_of (put x ∷ log) =
      let rest = filter_by (other_id x) (rows_of log) in if live x then x ∷ rest else rest
  rows_of (erase p ∷ log) = filter_by (λ row. not (p row)) (rows_of log)

  abbrev pub log_table : Table (List (Write Row)) Row
  log_table = record {
    rows = rows_of;
    find_all = λ r p. filter_by p (rows_of r);
    find_one = λ r p. first_of (filter_by p (rows_of r));
    save = λ r x. put x ∷ r;
    delete = λ r p. erase p ∷ r;
  }

  not-false : (b : Bool) → not b ≡ true → b ≡ false
  not-false b h = ground arith

  other_id-ne : (x row : Row) → other_id x row ≡ true → id row ≢ id x
  other_id-ne x row h e = true≢false (sym ((eq_iff (id row) (id x)).1 e) ∙ not-false _ h)

  ne-other_id : (x row : Row) → id row ≢ id x → other_id x row ≡ true
  ne-other_id x row h = elim (Bool-cases (str_eq (id row) (id x))) [
    | inl e ↦ absurd (h ((eq_iff (id row) (id x)).0 e))
    | inr e ↦ rw e refl
  ]

  put-rows :
      (log : List (Write Row)) (x row : Row)
      → In row (rows_of (put x ∷ log))
      → ((row ≡ x) × (live x ≡ true)) ⊎ (In row (rows_of log) × (id row ≢ id x))
  put-rows log x row h = elim (Bool-cases (live x)) [
    | inl l ↦ elim (subst (λ b. In row (if b then x ∷ rest else rest)) l h) [
      | inl e ↦ inl (e, l)
      | inr k ↦ inr (older k)
    ]
    | inr l ↦ inr (older (subst (λ b. In row (if b then x ∷ rest else rest)) l h))
  ]
    where
      rest : List Row
      rest = filter_by (other_id x) (rows_of log)

      older : In row rest → In row (rows_of log) × (id row ≢ id x)
      older k =
          let (there, other) = (In-filter_by (other_id x) row (rows_of log)).0 k in
          (there, other_id-ne x row other)

  rows_of-keyed :
      (log : List (Write Row)) (a b : Row)
      → In a (rows_of log)
      → In b (rows_of log)
      → id a ≡ id b
      → a ≡ b
  rows_of-keyed [] a b ha hb e = absurd ha
  rows_of-keyed (put x ∷ log) a b ha hb e = elim (put-rows log x a ha) [
    | inl (pa, l) ↦ elim (put-rows log x b hb) [
      | inl (pb, l') ↦ pa ∙ sym pb
      | inr (kb, nb) ↦ absurd (nb (sym e ∙ ap id pa))
    ]
    | inr (ka, na) ↦ elim (put-rows log x b hb) [
      | inl (pb, l') ↦ absurd (na (e ∙ ap id pb))
      | inr (kb, nb) ↦ rows_of-keyed log a b ka kb e
    ]
  ]
  rows_of-keyed (erase p ∷ log) a b ha hb e =
      rows_of-keyed log a b ((In-filter_by (λ row. not (p row)) a (rows_of log)).0 ha).0
        ((In-filter_by (λ row. not (p row)) b (rows_of log)).0 hb).0 e

  rows_of-live : (log : List (Write Row)) (row : Row) → In row (rows_of log) → live row ≡ true
  rows_of-live [] row h = absurd h
  rows_of-live (put x ∷ log) row h = elim (put-rows log x row h) [
    | inl (e, l) ↦ ap live e ∙ l
    | inr (k, n) ↦ rows_of-live log row k
  ]
  rows_of-live (erase p ∷ log) row h =
      rows_of-live log row ((In-filter_by (λ row. not (p row)) row (rows_of log)).0 h).0

  rows_of-apart : (log : List (Write Row)) → Pairwise (λ a b. id b ≢ id a) (rows_of log)
  rows_of-apart [] = tt
  rows_of-apart (put x ∷ log) = elim (Bool-cases (live x)) [
    | inl l ↦ rw l (
      All-of_In (λ b. id b ≢ id x) rest
          (λ b i. other_id-ne x b ((In-filter_by (other_id x) b (rows_of log)).0 i).1),
      filter_by-Pairwise (λ a b. id b ≢ id a) (other_id x) (rows_of log) (rows_of-apart log),
    )
    | inr l ↦
        rw l
          (filter_by-Pairwise (λ a b. id b ≢ id a) (other_id x) (rows_of log) (rows_of-apart log))
  ]
    where
      rest : List Row
      rest = filter_by (other_id x) (rows_of log)
  rows_of-apart (erase p ∷ log) =
      filter_by-Pairwise (λ a b. id b ≢ id a) (λ row. not (p row)) (rows_of log) (rows_of-apart log)

  kept_rest :
      (x : Row) (b : Bool) (rest : List Row) (row : Row)
      → In row rest
      → In row (if b then x ∷ rest else rest)
  kept_rest x true rest row h = inr h
  kept_rest x false rest row h = h

  none-of :
      (p : Row → Bool) (rows : List Row) (row : Row)
      → first_of (filter_by p rows) ≡ none
      → In row rows
      → p row ≡ false
  none-of p rows row e h = elim (Bool-cases (p row)) [
    | inl t ↦ absurd (empty (filter_by p rows) e ((In-filter_by p row rows).1 (h, t)))
    | inr f ↦ f
  ]
    where
      empty : (xs : List Row) → first_of xs ≡ none → In row xs → ⊥
      empty [] e h = h
      empty (x ∷ xs) e h = cc

  pub log_table-TableLaws : TableLaws log_table id live
  log_table-TableLaws = record {
    keyed = rows_of-keyed;
    found = λ r p row. In-filter_by p row (rows_of r);
    found-apart = λ r p. filter_by-Pairwise (λ a b. id b ≢ id a) p (rows_of r) (rows_of-apart r);
    found-one = λ r p row h.
        (In-filter_by p row (rows_of r)).0 (first_of-some row (filter_by p (rows_of r)) h);
    found-none = λ r p row h k. none-of p (rows_of r) row h k;
    saved = λ r x row h. put-rows r x row h;
    rows-live = rows_of-live;
    saved-there = λ r x l. rw l (inl refl);
    saved-others = λ r x row h n.
        kept_rest x (live x) _ row
          ((In-filter_by (other_id x) row (rows_of r)).1 (h, ne-other_id x row n));
    deleted = λ r p row. (
      λ h.
          let (k, e) = (In-filter_by (λ row. not (p row)) row (rows_of r)).0 h in
          (k, not-false _ e),
      λ (k, e). (In-filter_by (λ row. not (p row)) row (rows_of r)).1 (k, rw e refl),
    );
  }

-- A table within a larger state.
module _ {S R Row : Type 0} (get : S → R) (set : S → R → S) (table : Table R Row) where
  abbrev pub within : Table S Row
  within = record {
    rows = λ s. table.rows (get s);
    find_all = λ s p. table.find_all (get s) p;
    find_one = λ s p. table.find_one (get s) p;
    save = λ s x. set s (table.save (get s) x);
    delete = λ s p. set s (table.delete (get s) p);
  }

  module _ (id : Row → String) (live : Row → Bool)
      (get-set : (s : S) (r : R) → get (set s r) ≡ r) where
    pub within-TableLaws : TableLaws table id live → TableLaws within id live
    within-TableLaws laws = record {
      keyed = λ s. laws.keyed (get s);
      found = λ s. laws.found (get s);
      found-apart = λ s. laws.found-apart (get s);
      found-one = λ s. laws.found-one (get s);
      found-none = λ s. laws.found-none (get s);
      saved = λ s x row h. laws.saved (get s) x row (rw⁻¹ (get-set s (table.save (get s) x)) h);
      rows-live = λ s. laws.rows-live (get s);
      saved-there = λ s x l. rw (get-set s (table.save (get s) x)) (laws.saved-there (get s) x l);
      saved-others = λ s x row h n.
          rw (get-set s (table.save (get s) x)) (laws.saved-others (get s) x row h n);
      deleted = λ s p row. rw (get-set s (table.delete (get s) p)) (laws.deleted (get s) p row);
    }
