-- ===== src/Session/Debounce.antt =====
-- modules/assistant/session/debounce-coordinator.service.ts: one turn from the messages of a
-- window, under the user's lock. The turn runner and the job queue are parameters, whose false
-- stands for a throw; the random id of a lock and of a job are arguments. A throw of a Redis command is not
-- modelled.
pub mod Keeps
pub mod Window
mod Examples
use package.text.Mathlib.Text.{◌==◌ as str_eq}
use Prim.Native.String.{◌++◌ as str_append}
use cue_api.Common.{
  ℕ, ◌==◌, String, Bool, true, false, not, Option, none, some, List, [], ◌∷◌, map, if◌then◌else◌,
  any_of, filter_by,
}
use cue_api.Session.Redis.{Strings, Lists}
use cue_api.Session.UserLock.{run_exclusive}
use cue_api.Session.MessageBuffer.{
  BufferedMessage, BufferConfig, InboundKind, text, voice, command, callback, Json, append, drain,
  requeue_front,
}

pub data TurnOrigin : Type 0 where
  simple_message answer_callback answer_text : TurnOrigin

-- What `runFromMessage` is given, the user by id.
pub record TurnInput : Type 0 where
  pub user_id : String
  pub text : String
  pub kind : InboundKind
  pub vendor_chat_id : String
  pub correlation_id : String
  pub origin : TurnOrigin
  pub callback_id : Option String
  pub chat_type : Option String
  pub language_code : Option String
  pub stt_language : Option String

pub record DebounceAnswerPayload : Type 0 where
  pub text : String
  pub kind : InboundKind
  pub vendor_chat_id : String
  pub correlation_id : String
  pub origin : TurnOrigin
  pub callback_id : Option String
  pub chat_type : Option String
  pub language_code : Option String
  pub stt_language : Option String

pub record DebounceQueueJob : Type 0 where
  pub user_id : String
  pub answer : Option DebounceAnswerPayload

-- The name, the data, the id and the delay of an added job.
pub record AddedJob : Type 0 where
  pub name : String
  pub payload : DebounceQueueJob
  pub job_id : String
  pub delay : ℕ

pub record Services (R : Type 0) : Type 0 where
  pub strings : Strings R
  pub lists : Lists R
  pub json : Json
  pub queue_add : R → AddedJob → R × Bool
  pub queue_remove : R → String → R × Bool
  pub run_from_message : R → TurnInput → R × Bool

pub record DebounceConfig : Type 0 where
  pub buffer : BufferConfig
  pub user_lock_ttl_ms : ℕ

abbrev is_voice : InboundKind → Bool
is_voice voice = true
is_voice _ = false

-- `texts.join('\n')`
join_lines : List String → String
join_lines [] = ""
join_lines (line ∷ []) = line
join_lines (line ∷ lines) = str_append line (str_append "\n" (join_lines lines))

-- The texts of a batch that are not empty, in order, as lines.
pub combined_text : List BufferedMessage → String
combined_text messages =
    join_lines (filter_by (λ words. not (str_eq words "")) (map (λ message. message.text) messages))

-- The turn of a batch, whose first message seeds it.
pub combined_turn : String → BufferedMessage → List BufferedMessage → TurnInput
combined_turn user_id first messages = record {
  user_id = user_id;
  text = combined_text messages;
  kind = if any_of (λ message. is_voice message.kind) messages then voice else text;
  vendor_chat_id = first.vendor_chat_id;
  correlation_id = first.correlation_id;
  origin = simple_message;
  callback_id = none;
  chat_type = first.chat_type;
  language_code = first.language_code;
  stt_language = first.stt_language;
}

answer_turn : String → DebounceAnswerPayload → TurnInput
answer_turn user_id answer = record {
  user_id = user_id;
  text = answer.text;
  kind = answer.kind;
  vendor_chat_id = answer.vendor_chat_id;
  correlation_id = answer.correlation_id;
  origin = answer.origin;
  callback_id = answer.callback_id;
  chat_type = answer.chat_type;
  language_code = answer.language_code;
  stt_language = answer.stt_language;
}

debounce_job_id : String → String
debounce_job_id user_id = str_append "debounce-" user_id

debounce_after_job_id : String → String → String
debounce_after_job_id user_id nonce =
    str_append (str_append (str_append "debounce-after-" user_id) "-") nonce

module _ {R : Type 0} (services : Services R) (config : DebounceConfig) where
  open services use {strings, lists, json, queue_add, queue_remove, run_from_message}

  -- The job that drains the window at its end: its old one is removed, as far as it can be.
  arm_window : R → String → R × Bool
  arm_window r user_id =
      let r' = (queue_remove r (debounce_job_id user_id)).0 in
      queue_add r' (record {
        name = "drain";
        payload = record { user_id = user_id; answer = none };
        job_id = debounce_job_id user_id;
        delay = config.buffer.debounce_window_ms;
      })

  -- A job of its own id; a throw of the queue is caught.
  pub arm_after : R → String → String → Option DebounceAnswerPayload → R
  arm_after r user_id nonce answer =
      (queue_add r (record {
        name = "drain-after";
        payload = record { user_id = user_id; answer = answer };
        job_id = debounce_after_job_id user_id nonce;
        delay = config.buffer.debounce_queue_after_ms;
      })).0

  -- Whether the message is the first of its window; none where the queue throws.
  pub buffer : R → String → BufferedMessage → R × Option Bool
  buffer r user_id message =
      let (r', length) = append lists json config.buffer r user_id message in
      let (r'', armed) = arm_window r' user_id in (r'', if armed then some (length == 1) else none)

  -- The work under the lock: true where the turn returns.
  work : TurnInput → R → R × Option Bool
  work input r = let (r', ran) = run_from_message r input in (r', if ran then some true else none)

  -- Under the lock of the user; false is LOCK_BUSY.
  turn_exclusive : R → String → String → TurnInput → R × Option Bool
  turn_exclusive r user_id token input =
      run_exclusive strings config.user_lock_ttl_ms r user_id token (work input) false

  -- Whether the batch ran, a batch of empty texts included; none where the turn throws.
  pub run_drained_turn :
      R → String → String → BufferedMessage → List BufferedMessage → R × Option Bool
  run_drained_turn r user_id token first messages =
      if str_eq (combined_text messages) ""
      then (r, some true)
      else turn_exclusive r user_id token (combined_turn user_id first messages)

  pub run_answer_turn : R → String → String → DebounceAnswerPayload → R × Option Bool
  run_answer_turn r user_id token answer =
      turn_exclusive r user_id token (answer_turn user_id answer)

  queue_after : R → String → String → List BufferedMessage → R
  queue_after r user_id nonce messages =
      arm_after (requeue_front lists json config.buffer r user_id messages) user_id nonce none

  -- What becomes of an answer once its turn was tried.
  settle_answer : R → String → String → DebounceAnswerPayload → Option Bool → R
  settle_answer r user_id nonce answer (some true) = r
  settle_answer r user_id nonce answer (some false) = arm_after r user_id nonce (some answer)
  settle_answer r user_id nonce answer none = arm_after r user_id nonce (some answer)

  pub run_answer_exclusive : R → String → String → String → DebounceAnswerPayload → R
  run_answer_exclusive r user_id token nonce answer =
      let (r', ran) = run_answer_turn r user_id token answer in
      settle_answer r' user_id nonce answer ran

  -- What becomes of a batch once its turn was tried.
  settle_batch : R → String → String → List BufferedMessage → Option Bool → R
  settle_batch r user_id nonce messages (some true) = r
  settle_batch r user_id nonce messages (some false) = queue_after r user_id nonce messages
  settle_batch r user_id nonce messages none = queue_after r user_id nonce messages

  run_batch : R → String → String → String → List BufferedMessage → R
  run_batch r user_id token nonce [] = r
  run_batch r user_id token nonce (first ∷ messages) =
      let (r', ran) = run_drained_turn r user_id token first (first ∷ messages) in
      settle_batch r' user_id nonce (first ∷ messages) ran

  -- A job without an answer.
  drain_window : R → String → String → String → R
  drain_window r user_id token nonce =
      let (r', messages) = drain lists json config.buffer r user_id in
      run_batch r' user_id token nonce messages

  pub drain_and_run : R → String → String → String → Option DebounceAnswerPayload → R
  drain_and_run r user_id token nonce (some answer) =
      run_answer_exclusive r user_id token nonce answer
  drain_and_run r user_id token nonce none = drain_window r user_id token nonce
