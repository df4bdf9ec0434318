-- ===== src/Session/MessageBuffer/Order.antt =====
-- The order of the buffer.
use mathlib.Core.List.{map-append}
use cue_api.Common.{
  suc, ◌+◌, ◌≡◌, refl, sym, ap, ◌∙◌, String, some, List, [], ◌∷◌, ◌++◌, map, reverse,
  reverse-reverse, append_assoc, append-nil, length, length-append, All,
}
use cue_api.Session.Redis.{Lists, ListsLaws}
use cue_api.Session.MessageBuffer.{
  BufferedMessage, Json, BufferConfig, debounce_buffer_key, buffer_ttl_ms, append, drain_buffer,
  keep_parsed, parse_all, drain, requeue_front,
}

-- An entry's text gives the entry back.
abbrev pub RoundTrips : Json → BufferedMessage → Type 0
RoundTrips json message = json.parse (json.stringify message) ≡ some message

length-map : {A B : Type 0} (f : A → B) (xs : List A) → length (map f xs) ≡ length xs
length-map f [] = refl
length-map f (x ∷ xs) = ap suc (length-map f xs)

module _ {R : Type 0} (lists : Lists R) (json : Json) where
  -- The buffer of the user holds the messages, in order.
  abbrev pub Holds : R → String → List BufferedMessage → Type 0
  Holds r user_id messages =
      lists.lrange r (debounce_buffer_key user_id) ≡ map json.stringify messages

module _ {R : Type 0} (lists : Lists R) (json : Json) (config : BufferConfig) where
  -- Messages that arrive one after the other.
  pub append_all : R → String → List BufferedMessage → R
  append_all r user_id [] = r
  append_all r user_id (message ∷ messages) =
      append_all (append lists json config r user_id message).0 user_id messages

module _ {R : Type 0} (lists : Lists R) (laws : ListsLaws lists) (json : Json)
    (config : BufferConfig) where
  open lists use {lrange, rpush, lpush, del, pexpire}
  open laws use {lrange-rpush, rpush-length, lrange-lpush, lrange-del, lrange-pexpire}
  open json use {stringify, parse}

  parse_all-stringify :
      (messages : List BufferedMessage)
      → All (RoundTrips json) messages
      → parse_all lists json config (map stringify messages) ≡ messages
  unfolding parse_all keep_parsed
  parse_all-stringify [] h = refl
  parse_all-stringify (message ∷ messages) (p, h) =
      rw p (ap (λ l. message ∷ l) (parse_all-stringify messages h))

  -- An append comes last, and answers the new length: 1 for the first message of a window.
  pub append-Holds :
      (r : R) (user_id : String) (messages : List BufferedMessage) (message : BufferedMessage)
      → Holds lists json r user_id messages
      → Holds lists json
          (append lists json config r user_id message).0
          user_id
          (messages ++ message ∷ [])
        × ((append lists json config r user_id message).1 ≡ length messages + 1)
  unfolding append
  append-Holds r user_id messages message h = (
    lrange-pexpire _ key key (buffer_ttl_ms config) ∙ pushed,
    rpush-length r key (stringify message)
        ∙ ap length pushed
        ∙ length-map stringify (messages ++ message ∷ [])
        ∙ length-append messages (message ∷ []),
  )
    where
      key : String
      key = debounce_buffer_key user_id

      pushed :
          lrange (rpush r key (stringify message)).0 key ≡ map stringify (messages ++ message ∷ [])
      pushed =
          lrange-rpush r key (stringify message)
          ∙ ap (λ l. l ++ stringify message ∷ []) h
          ∙ sym (map-append stringify messages (message ∷ []))

  pub drain-Holds :
      (r : R) (user_id : String) (messages : List BufferedMessage)
      → All (RoundTrips json) messages
      → Holds lists json r user_id messages
      → Holds lists json (drain lists json config r user_id).0 user_id []
        × ((drain lists json config r user_id).1 ≡ messages)
  unfolding drain drain_buffer
  drain-Holds r user_id messages k h = (
    lrange-del r (debounce_buffer_key user_id),
    ap (parse_all lists json config) h ∙ parse_all-stringify messages k,
  )

  pub requeue_front-Holds :
      (r : R) (user_id : String) (batch messages : List BufferedMessage)
      → Holds lists json r user_id messages
      → Holds lists json
          (requeue_front lists json config r user_id batch)
          user_id
          (batch ++ messages)
  unfolding requeue_front
  requeue_front-Holds r user_id [] messages h = h
  requeue_front-Holds r user_id (message ∷ batch) messages h =
      lrange-pexpire _ key key (buffer_ttl_ms config)
      ∙ lrange-lpush r key (reverse serialized)
      ∙ ap (λ l. l ++ lrange r key) (reverse-reverse serialized)
      ∙ ap (λ l. serialized ++ l) h
      ∙ sym (map-append stringify (message ∷ batch) messages)
    where
      key : String
      key = debounce_buffer_key user_id

      serialized : List String
      serialized = map stringify (message ∷ batch)

  pub append_all-Holds :
      (r : R) (user_id : String) (messages arrived : List BufferedMessage)
      → Holds lists json r user_id messages
      → Holds lists json
          (append_all lists json config r user_id arrived)
          user_id
          (messages ++ arrived)
  unfolding append_all
  append_all-Holds r user_id messages [] h = h ∙ ap (map stringify) (sym (append-nil messages))
  append_all-Holds r user_id messages (message ∷ arrived) h =
      append_all-Holds (append lists json config r user_id message).0 user_id
        (messages ++ message ∷ []) arrived (append-Holds r user_id messages message h).0
      ∙ ap (map stringify) (append_assoc messages (message ∷ []) arrived)

  -- A drain answers the messages of the buffer, in order, and empties it. A batch that is put back
  -- comes before all that arrived since its drain: the buffer holds every message in the order of
  -- arrival.
  pub requeue_front-drain :
      (r : R) (user_id : String) (messages arrived : List BufferedMessage)
      → All (RoundTrips json) messages
      → Holds lists json r user_id messages
      → ((drain lists json config r user_id).1 ≡ messages)
        × Holds lists json
            (requeue_front lists json config
              (append_all lists json config (drain lists json config r user_id).0 user_id arrived)
              user_id
              (drain lists json config r user_id).1)
            user_id
            (messages ++ arrived)
  requeue_front-drain r user_id messages arrived k h =
      let (emptied, drained) = drain-Holds r user_id messages k h in
      (
        drained,
        requeue_front-Holds _ user_id (drain lists json config r user_id).1 arrived
              (append_all-Holds _ user_id [] arrived emptied)
            ∙ ap (λ b. map stringify (b ++ arrived)) drained,
      )
