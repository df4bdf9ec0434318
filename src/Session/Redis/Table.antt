-- ===== src/Session/Redis/Table.antt =====
-- A table as the store, to instantiate the commands.
use text.Mathlib.Text.{◌==◌ as str_eq}
use text.Mathlib.TextEquality.{eq_iff}
use cue_api.Common.{
  ℕ, ◌≡◌, ◌≢◌, refl, String, Bool, true, false, Option, none, some, Bool-cases, inl, inr,
  if◌then◌else◌,
}
use cue_api.Session.Redis.{Strings, StringsLaws}

abbrev pub Table : Type 0
Table = String → Option String

-- The table with an entry written.
pub write : Table → String → Option String → Table
write table key value other = if str_eq other key then value else table other

pub write-same :
    (table : Table) (key : String) (value : Option String) → write table key value key ≡ value
unfolding write
write-same table key value = rw ((eq_iff key key).1 refl) refl

write-other :
    (table : Table) (key : String) (value : Option String) (other : String)
    → other ≢ key
    → write table key value other ≡ table other
unfolding write
write-other table key value other h = elim (Bool-cases (str_eq other key)) [
  | inl e ↦ absurd (h ((eq_iff other key).0 e))
  | inr e ↦ rw e refl
]

abbrev set_if_free : Table → String → String → Option String → Table × Bool
set_if_free table key value none = (write table key (some value), true)
set_if_free table key value (some held) = (table, false)

abbrev count : Option String → ℕ
count none = 0
count (some held) = 1

abbrev pub table_strings : Strings Table
table_strings = record {
  get = λ table key. table key;
  set_nx = λ table key value ttl. set_if_free table key value (table key);
  del = λ table key. (write table key none, count (table key));
  pexpire = λ table key ttl. (table, count (table key));
}

pub table_strings-StringsLaws : StringsLaws table_strings
table_strings-StringsLaws = record {
  set_nx-free = λ r key value ttl h. rw h (refl, write-same r key (some value));
  set_nx-taken = λ r key value held ttl h. rw h (refl, h);
  set_nx-other = λ r key value other ttl h. other_set r key value other h (r key);
  del-gone = λ r key. write-same r key none;
  del-count = λ r key held h. rw h refl;
  del-other = λ r key other h. write-other r key none other h;
  pexpire-same = λ r key other ttl. refl;
}
  where
    other_set :
        (r : Table) (key value other : String)
        → other ≢ key
        → (o : Option String) → (set_if_free r key value o).0 other ≡ r other
    other_set r key value other h none = write-other r key (some value) other h
    other_set r key value other h (some held) = refl
