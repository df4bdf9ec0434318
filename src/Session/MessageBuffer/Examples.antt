-- ===== src/Session/MessageBuffer/Examples.antt =====
-- Three messages, of which the last arrives after a drain.
use cue_api.Common.{◌≡◌, refl, String, none, some, [], ◌∷◌}
use cue_api.Session.Redis.Queues.{Queues, queue_lists, queue_lists-ListsLaws}
use cue_api.Session.MessageBuffer.{BufferedMessage, Json, BufferConfig, text, drain, requeue_front}
use cue_api.Session.MessageBuffer.Order.{Holds, append_all, append_all-Holds, requeue_front-drain}

abbrev said : String → BufferedMessage
said words = record {
  text = words;
  kind = text;
  vendor_chat_id = "chat";
  correlation_id = "c1";
  chat_type = none;
  language_code = none;
  stt_language = none;
}

-- Entries that differ in their text alone.
abbrev json : Json
json = record { stringify = λ message. message.text; parse = λ words. some (said words) }

abbrev config : BufferConfig
config = record { debounce_window_ms = 2000; debounce_queue_after_ms = 1000 }

-- Two messages in the window.
abbrev window : Queues
window = append_all queue_lists json config (λ key. []) "u1" (said "hi" ∷ said "there" ∷ [])

window-Holds : Holds queue_lists json window "u1" (said "hi" ∷ said "there" ∷ [])
unfolding queue_lists
window-Holds =
    append_all-Holds queue_lists queue_lists-ListsLaws json config (λ key. []) "u1" []
      (said "hi" ∷ said "there" ∷ []) refl

requeue_front-drain_example :
    ((drain queue_lists json config window "u1").1 ≡ said "hi" ∷ said "there" ∷ [])
    × Holds queue_lists json
        (requeue_front queue_lists json config
          (append_all queue_lists json config
            (drain queue_lists json config window "u1").0
            "u1"
            (said "late" ∷ []))
          "u1"
          (drain queue_lists json config window "u1").1)
        "u1"
        (said "hi" ∷ said "there" ∷ said "late" ∷ [])
requeue_front-drain_example =
    requeue_front-drain queue_lists queue_lists-ListsLaws json config window "u1"
      (said "hi" ∷ said "there" ∷ []) (said "late" ∷ []) (refl, (refl, tt)) window-Holds
