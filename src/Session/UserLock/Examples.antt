-- ===== src/Session/UserLock/Examples.antt =====
-- A lock in a table.
use cue_api.Common.{ℕ, ◌≡◌, ◌≢◌, refl, String, Option, none, some}
use cue_api.Session.Redis.Table.{table_strings, table_strings-StringsLaws, Table}
use cue_api.Session.UserLock.{user_lock_key, acquire, renew, run_exclusive}
use cue_api.Session.UserLock.Exclusion.{
  still, then_step, acquires, renews, acquire-exclusive, run_exclusive-free,
}

abbrev empty_table : Table
empty_table key = none

abbrev work : Table → Table × Option ℕ
work r = (r, some 7)

-- The first holder, its watchdog's renewal and a second comer.
acquire-exclusive_example :
    ((acquire table_strings 90_000 empty_table "u1" "a").1 ≡ some "a")
    × ((later : String)
        → (acquire table_strings 90_000
            (acquire table_strings 90_000
              (renew table_strings 90_000
                (acquire table_strings 90_000 empty_table "u1" "a").0
                "u1"
                "a").0
              "u1"
              "b").0
            "u1"
            later).1
          ≡ none)
acquire-exclusive_example =
    acquire-exclusive table_strings table_strings-StringsLaws 90_000 empty_table "u1" "a" refl
      (then_step (then_step still (renews "u1" "a")) (acquires "u1" "b"))

run_exclusive-free_example :
    (table_strings.get (acquire table_strings 90_000 empty_table "u1" "a").0 (user_lock_key "u1")
      ≡ some "a")
    × ((run_exclusive table_strings 90_000 empty_table "u1" "a" work 0).1 ≡ some 7)
    × (table_strings.get
          (run_exclusive table_strings 90_000 empty_table "u1" "a" work 0).0
          (user_lock_key "u1")
        ≢ some "a")
run_exclusive-free_example =
    run_exclusive-free table_strings table_strings-StringsLaws 90_000 empty_table "u1" "a" work 0
      refl
