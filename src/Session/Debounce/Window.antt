-- ===== src/Session/Debounce/Window.antt =====
-- The messages of a window, one after the other, and what each is answered.
use cue_api.Common.{
  ℕ, ◌+◌, ◌==◌, ◌≡◌, sym, ap, ◌∙◌, String, Bool, true, false, Option, none, some, List, [], ◌∷◌,
  ◌++◌, arith, append-nil, append_assoc, length, map, All, if◌then◌else◌,
}
use cue_api.Session.Redis.{ListsLaws}
use cue_api.Session.MessageBuffer.{BufferedMessage, debounce_buffer_key, drain}
use cue_api.Session.MessageBuffer.Order.{Holds, RoundTrips, append-Holds, drain-Holds}
use cue_api.Session.Debounce.{Services, DebounceConfig, AddedJob, arm_window, buffer}

module _ {R : Type 0} (services : Services R) (config : DebounceConfig) where
  open services use {lists, json, queue_add, queue_remove}

  -- The job queue leaves the buffers alone.
  pub record QueueApart : Type 0 where
    pub add-apart :
        (r : R) (job : AddedJob) (user_id : String)
        → lists.lrange (queue_add r job).0 (debounce_buffer_key user_id)
          ≡ lists.lrange r (debounce_buffer_key user_id)
    pub remove-apart :
        (r : R) (id user_id : String)
        → lists.lrange (queue_remove r id).0 (debounce_buffer_key user_id)
          ≡ lists.lrange r (debounce_buffer_key user_id)

  -- The messages are buffered in turn; with what each is answered.
  pub buffer_all : R → String → List BufferedMessage → R × List (Option Bool)
  buffer_all r user_id [] = (r, [])
  buffer_all r user_id (message ∷ messages) =
      let (r', answer) = buffer services config r user_id message in
      let (r'', answers) = buffer_all r' user_id messages in (r'', answer ∷ answers)

-- An answer, where the queue does not throw, says whether the message was the first.
abbrev pub Says : Bool → Option Bool → Type 0
Says first none = Unit {0}
Says first (some answer) = answer ≡ first

-- Of the answers to messages that come after those held, the one to a message that finds none says
-- that it is the first, and every other says that it is not.
abbrev pub OneFirst : List BufferedMessage → List (Option Bool) → Type 0
OneFirst held [] = Unit {0}
OneFirst [] (answer ∷ answers) = Says true answer × All (Says false) answers
OneFirst (message ∷ held) (answer ∷ answers) = All (Says false) (answer ∷ answers)

is_empty : List BufferedMessage → Bool
is_empty [] = true
is_empty (message ∷ held) = false

armed-Says :
    (armed : Bool) (n : ℕ) (held : List BufferedMessage)
    → n ≡ length held + 1
    → Says (is_empty held) (if armed then some (n == 1) else none)
unfolding is_empty
armed-Says false n held h = tt
armed-Says true n [] h = ground (arith, h)
armed-Says true n (message ∷ held) h = ground (arith, h)

module _ {R : Type 0} (services : Services R) (config : DebounceConfig)
    (lists_laws : ListsLaws services.lists) (apart : QueueApart services config) where
  open services use {lists, json}

  buffer-Holds :
      (r : R) (user_id : String) (held : List BufferedMessage) (message : BufferedMessage)
      → Holds lists json r user_id held
      → Holds lists json (buffer services config r user_id message).0 user_id (held ++ message ∷ [])
        × Says (is_empty held) (buffer services config r user_id message).1
  unfolding buffer arm_window
  buffer-Holds r user_id held message h =
      let (appended, counted) =
        append-Holds lists lists_laws json config.buffer r user_id held message h in
      (
        apart.add-apart _ _ user_id ∙ apart.remove-apart _ _ user_id ∙ appended,
        armed-Says _ _ held counted,
      )

  buffer_all-later :
      (r : R) (user_id : String) (first : BufferedMessage) (held messages : List BufferedMessage)
      → Holds lists json r user_id (first ∷ held)
      → Holds lists json
          (buffer_all services config r user_id messages).0
          user_id
          (first ∷ held ++ messages)
        × All (Says false) (buffer_all services config r user_id messages).1
  unfolding buffer_all is_empty
  buffer_all-later r user_id first held [] h =
      (h ∙ ap (λ l. map json.stringify (first ∷ l)) (sym (append-nil held)), tt)
  buffer_all-later r user_id first held (message ∷ messages) h =
      let (now_held, said) = buffer-Holds r user_id (first ∷ held) message h in
      let (rest_held, rest_said) =
        buffer_all-later (buffer services config r user_id message).0 user_id first
          (held ++ message ∷ []) messages now_held in
      (
        rest_held
            ∙ ap (λ l. map json.stringify (first ∷ l)) (append_assoc held (message ∷ []) messages),
        (said, rest_said),
      )

  buffer_all-Holds :
      (r : R) (user_id : String) (held messages : List BufferedMessage)
      → Holds lists json r user_id held
      → OneFirst held (buffer_all services config r user_id messages).1
        × Holds lists json
            (buffer_all services config r user_id messages).0
            user_id
            (held ++ messages)
  unfolding buffer_all is_empty
  buffer_all-Holds r user_id [] [] h = (tt, h)
  buffer_all-Holds r user_id [] (message ∷ messages) h =
      let (now_held, said) = buffer-Holds r user_id [] message h in
      let (rest_held, rest_said) =
        buffer_all-later (buffer services config r user_id message).0 user_id message [] messages
          now_held in
      ((said, rest_said), rest_held)
  buffer_all-Holds r user_id (first ∷ held) [] h =
      (tt, (buffer_all-later r user_id first held [] h).0)
  buffer_all-Holds r user_id (first ∷ held) (message ∷ messages) h =
      let (all_held, said) = buffer_all-later r user_id first held (message ∷ messages) h in
      (said, all_held)

  -- Whatever the queue answers: messages that are buffered one after the other stand in the buffer
  -- behind those that it held, in their order, so that the next drain answers them all and empties
  -- it; and of the answers that are given, that to a message that found the buffer empty says that it
  -- is the first of its window, and every other says that it is not.
  pub buffer_all-OneFirst :
      (r : R) (user_id : String) (held messages : List BufferedMessage)
      → Holds lists json r user_id held
      → All (RoundTrips json) (held ++ messages)
      → let (r', answers) = buffer_all services config r user_id messages in
        OneFirst held answers
        × ((drain lists json config.buffer r' user_id).1 ≡ held ++ messages)
        × Holds lists json (drain lists json config.buffer r' user_id).0 user_id []
  buffer_all-OneFirst r user_id held messages h k =
      let (said, all_held) = buffer_all-Holds r user_id held messages h in
      let (emptied, drained) =
        drain-Holds lists lists_laws json config.buffer
          (buffer_all services config r user_id messages).0 user_id (held ++ messages) k all_held in
      (said, drained, emptied)
