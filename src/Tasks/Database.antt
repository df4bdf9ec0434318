-- ===== src/Tasks/Database.antt =====
-- The tables as the services see them through TypeORM: a parameter of the model. R is the whole
-- state of the database and of what else an operation changes. A query takes the rows that pass its
-- `where`; it does not see rows that are deleted softly unless it says so.
pub mod Log
use text.Mathlib.Text.{◌==◌ as str_eq}
use cue_api.Common.{
  ℕ, ◌≡◌, ◌≢◌, ◌⊎◌, ◌↔◌, String, Bool, true, false, Option, none, some, List, [], ◌∷◌, In, Pairwise,
}
use cue_api.Recurrence.Types.{Instant}
use cue_api.Tasks.Types.{TaskRow, GroupRow, ExceptionRow, CalendarRow}

-- `findAll`, `findOneBy` and `save` of a table; `rows` are the rows that queries see.
pub record Table (R Row : Type 0) : Type 0 where
  pub rows : R → List Row
  pub find_all : R → (Row → Bool) → List Row
  pub find_one : R → (Row → Bool) → Option Row
  pub save : R → Row → R
  -- `delete` of the rows that pass.
  pub delete : R → (Row → Bool) → R

module _ {R Row : Type 0} (table : Table R Row) (id : Row → String) (live : Row → Bool) where
  open table use {rows, find_all, find_one, save, delete}

  -- A query finds the rows that pass, each once, and one of them where it asks for one; a save puts its row in the
  -- place of the row with its id, or adds it, and a row that is not live is seen no more; a
  -- deletion takes the rows that pass.
  pub record TableLaws : Type 0 where
    -- The primary key.
    pub keyed : (r : R) (a b : Row) → In a (rows r) → In b (rows r) → id a ≡ id b → a ≡ b
    pub found :
        (r : R) (p : Row → Bool) (row : Row)
        → In row (find_all r p) ↔ (In row (rows r) × (p row ≡ true))
    pub found-apart : (r : R) (p : Row → Bool) → Pairwise (λ a b. id b ≢ id a) (find_all r p)
    pub found-one :
        (r : R) (p : Row → Bool) (row : Row)
        → find_one r p ≡ some row
        → In row (rows r) × (p row ≡ true)
    pub found-none :
        (r : R) (p : Row → Bool) (row : Row) → find_one r p ≡ none → In row (rows r) → p row ≡ false
    pub saved :
        (r : R) (x row : Row)
        → In row (rows (save r x))
        → ((row ≡ x) × (live x ≡ true)) ⊎ (In row (rows r) × (id row ≢ id x))
    pub rows-live : (r : R) (row : Row) → In row (rows r) → live row ≡ true
    pub saved-there : (r : R) (x : Row) → live x ≡ true → In x (rows (save r x))
    pub saved-others :
        (r : R) (x row : Row) → In row (rows r) → id row ≢ id x → In row (rows (save r x))
    pub deleted :
        (r : R) (p : Row → Bool) (row : Row)
        → In row (rows (delete r p)) ↔ (In row (rows r) × (p row ≡ false))
