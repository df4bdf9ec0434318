-- ===== src/Session/PendingQuestions.antt =====
-- modules/assistant/session/pending-interaction.store.ts and claimAwaiting of
-- modules/database/services/pending-question-database.service.ts: the claims of a question that was
-- put to the user. The rows of the database and the keys of Redis are parameters.
mod Once
mod Examples
use Prim.Native.String.{◌++◌ as str_append}
use text.Mathlib.Text.{◌==◌ as str_eq}
use cue_api.Common.{
  ℕ, ◌+◌, ◌*◌, ltb, String, Bool, true, false, Option, none, some, List, [], ◌∷◌, if◌then◌else◌,
}
use cue_api.Orchestration.Types.{ToolRound, AskUserOption}

pub data PendingQuestionStatus : Type 0 where
  awaiting answered cancelled expired : PendingQuestionStatus

pub record PendingQuestionPayload : Type 0 where
  pub tool_rounds : List ToolRound
  pub question : String
  pub option_labels : List AskUserOption
  pub correlation_id : String
  pub vendor_chat_id : String
  pub question_vendor_message_id : Option String

pub record PendingQuestionDraft : Type 0 where
  pub conversation_id : String
  pub ask_tool_use_id : String
  pub payload : PendingQuestionPayload

-- A row, whose status the stores keep. Times are epoch milliseconds.
pub record PendingQuestion : Type 0 where
  pub id : String
  pub conversation_id : String
  pub ask_tool_use_id : String
  pub payload : PendingQuestionPayload
  pub expires_at : ℕ

pub record PendingQuestionConfig : Type 0 where
  pub ask_user_retention_hours : ℕ
  pub ask_user_ttl_seconds : ℕ

-- `exists`, `getdel`, `set … EX` and `del`; the status of a row, its insertion, which gives it its
-- id, its look-up, its update, whose false stands for a throw; and the update of the rows with an id and a status,
-- which answers the rows that it changed.
pub record Stores (R : Type 0) : Type 0 where
  pub exists : R → String → ℕ
  pub getdel : R → String → R × Option String
  pub set_ex : R → String → String → ℕ → R
  pub del : R → String → R
  pub status : R → String → Option PendingQuestionStatus
  pub insert : R → PendingQuestionDraft → ℕ → R × PendingQuestion
  pub find_one : R → String → Option PendingQuestion
  pub save : R → PendingQuestion → R × Bool
  pub update_where :
      R → String → PendingQuestionStatus → PendingQuestionStatus → R × List PendingQuestion

pending_question_key_prefix : String
pending_question_key_prefix = "assistant:ask"

pub pending_question_key : String → String
pending_question_key user_id = str_append (str_append pending_question_key_prefix ":") user_id

-- `const [claimed] = result.raw`
first_row : List PendingQuestion → Option PendingQuestion
first_row [] = none
first_row (claimed ∷ rows) = some claimed

module _ {R : Type 0} (stores : Stores R) (config : PendingQuestionConfig) where
  open stores use {exists, getdel, set_ex, del, insert, find_one, save, update_where}

  pub has_pending_question : R → String → Bool
  has_pending_question r user_id = ltb 0 (exists r (pending_question_key user_id))

  pub create_pending_question : R → ℕ → String → PendingQuestionDraft → R × PendingQuestion
  create_pending_question r now user_id draft =
      let (r', saved) = insert r draft (now + config.ask_user_retention_hours * 3_600_000) in
      (set_ex r' (pending_question_key user_id) saved.id config.ask_user_ttl_seconds, saved)

  -- Whether the row carries the message id already.
  carries : Option String → String → Bool
  carries none message_id = false
  carries (some attached) message_id = str_eq attached message_id

  -- A throw of the save is swallowed.
  attach_to : R → Option PendingQuestion → String → R
  attach_to r none message_id = r
  attach_to r (some row) message_id =
      if carries row.payload.question_vendor_message_id message_id
      then r
      else (save r (record row {
        payload = record row.payload { question_vendor_message_id = some message_id };
      })).0

  pub attach_question_message_id : R → String → String → R
  attach_question_message_id r pending_id message_id =
      attach_to r (find_one r pending_id) message_id

  pub claim_awaiting : R → String → R × Option PendingQuestion
  claim_awaiting r id = let (r', rows) = update_where r id awaiting answered in (r', first_row rows)

  claim_row : R → Option String → R × Option PendingQuestion
  claim_row r none = (r, none)
  claim_row r (some row_id) = claim_awaiting r row_id

  pub claim_hot_by_user : R → String → R × Option PendingQuestion
  claim_hot_by_user r user_id =
      let (r', row_id) = getdel r (pending_question_key user_id) in claim_row r' row_id

  -- A winning claim clears the key.
  clear_key : R → String → Option PendingQuestion → R × Option PendingQuestion
  clear_key r user_id none = (r, none)
  clear_key r user_id (some claimed) = (del r (pending_question_key user_id), some claimed)

  pub claim_by_id : R → String → String → R × Option PendingQuestion
  claim_by_id r user_id pending_question_id =
      let (r', claimed) = claim_awaiting r pending_question_id in clear_key r' user_id claimed
