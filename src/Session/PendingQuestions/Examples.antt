-- ===== src/Session/PendingQuestions/Examples.antt =====
-- One question, a button tapped twice and a text.
use text.Mathlib.Text.{◌==◌ as str_eq}
use text.Mathlib.TextEquality.{eq_iff}
use cue_api.Common.{
  ◌≡◌, ◌≢◌, refl, String, Bool, true, false, Option, none, some, List, [], ◌∷◌, Bool-cases, inl,
  inr, if◌then◌else◌,
}
use cue_api.Session.PendingQuestions.{
  PendingQuestionStatus, awaiting, answered, cancelled, expired, PendingQuestion,
  PendingQuestionConfig, Stores, claim_by_id, claim_awaiting, clear_key, first_row,
}
use cue_api.Session.PendingQuestions.Once.{
  StoresLaws, by_id, by_text, claim, still, then_claim, Misses, claim-once,
}

-- The status of each row, and the key of each user.
record Desk : Type 0 where
  rows : String → Option PendingQuestionStatus
  keys : String → Option String

abbrev row_of : String → PendingQuestion
row_of id = record {
  id = id;
  conversation_id = "c";
  ask_tool_use_id = "t";
  payload = record {
    tool_rounds = [];
    question = "Which one?";
    option_labels = [];
    correlation_id = "c1";
    vendor_chat_id = "chat";
    question_vendor_message_id = none;
  };
  expires_at = 0;
}

abbrev config : PendingQuestionConfig
config = record { ask_user_retention_hours = 72; ask_user_ttl_seconds = 600 }

abbrev write_row :
    (String → Option PendingQuestionStatus)
    → String
    → PendingQuestionStatus
    → String
    → Option PendingQuestionStatus
write_row rows id to other = if str_eq other id then some to else rows other

abbrev drop_key : (String → Option String) → String → String → Option String
drop_key keys key other = if str_eq other key then none else keys other

abbrev is_status : PendingQuestionStatus → PendingQuestionStatus → Bool
is_status awaiting awaiting = true
is_status answered answered = true
is_status cancelled cancelled = true
is_status expired expired = true
is_status _ _ = false

abbrev update :
    Desk
    → String
    → PendingQuestionStatus
    → PendingQuestionStatus
    → Option PendingQuestionStatus
    → Desk × List PendingQuestion
update r id from to none = (r, [])
update r id from to (some status) =
    if is_status status from
    then (record r { rows = write_row r.rows id to }, row_of id ∷ [])
    else (r, [])

abbrev desk_stores : Stores Desk
desk_stores = record {
  exists = λ r key. elim (r.keys key) [ none ↦ 0 | some value ↦ 1 ];
  getdel = λ r key. (record r { keys = drop_key r.keys key }, r.keys key);
  set_ex = λ r key value ttl. r;
  del = λ r key. record r { keys = drop_key r.keys key };
  status = λ r id. r.rows id;
  insert = λ r draft expires_at. (r, row_of "q1");
  find_one = λ r id. some (row_of id);
  save = λ r row. (r, true);
  update_where = λ r id from to. update r id from to (r.rows id);
}

desk_stores-StoresLaws : StoresLaws desk_stores
desk_stores-StoresLaws = record {
  getdel-apart = λ r key id. refl;
  del-apart = λ r key id. refl;
  update-hit = λ r id to h. rw h (rw ((eq_iff id id).1 refl) refl, (row_of id, refl, refl));
  update-miss = λ r id to h. miss r id to (r.rows id) refl h;
  update-other = λ r id other to h. apart r id other to (r.rows id) h;
}
  where
    miss :
        (r : Desk) (id : String) (to : PendingQuestionStatus) (o : Option PendingQuestionStatus)
        → r.rows id ≡ o
        → o ≢ some awaiting
        → ((update r id awaiting to o).0.rows id ≡ r.rows id) × ((update r id awaiting to o).1 ≡ [])
    miss r id to none e h = (refl, refl)
    miss r id to (some awaiting) e h = absurd (h refl)
    miss r id to (some answered) e h = (refl, refl)
    miss r id to (some cancelled) e h = (refl, refl)
    miss r id to (some expired) e h = (refl, refl)

    apart :
        (r : Desk) (id other : String) (to : PendingQuestionStatus)
        (o : Option PendingQuestionStatus)
        → other ≢ id
        → (update r id awaiting to o).0.rows other ≡ r.rows other
    apart r id other to none h = refl
    apart r id other to (some answered) h = refl
    apart r id other to (some cancelled) h = refl
    apart r id other to (some expired) h = refl
    apart r id other to (some awaiting) h = elim (Bool-cases (str_eq other id)) [
      | inl e ↦ absurd (h ((eq_iff other id).0 e))
      | inr e ↦ rw e refl
    ]

abbrev desk : Desk
desk = record { rows = λ id. some awaiting; keys = λ key. some "q1" }

desk-won : (claim desk_stores config (by_id "u1" "q1") desk).1 ≡ some (row_of "q1")
unfolding claim_by_id claim_awaiting first_row clear_key
desk-won = refl

claim-once_example :
    Misses "q1"
      (claim desk_stores config
        (by_id "u1" "q1")
        (claim desk_stores config
          (by_text "u1")
          (claim desk_stores config (by_id "u1" "q1") desk).0).0).1
claim-once_example =
    claim-once desk_stores desk_stores-StoresLaws config (by_id "u1" "q1") (by_id "u1" "q1") desk
      (row_of "q1") desk-won (then_claim (by_text "u1") still)
