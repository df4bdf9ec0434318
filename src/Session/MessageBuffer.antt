-- ===== src/Session/MessageBuffer.antt =====
-- modules/assistant/session/message-buffer.store.ts: the buffer of a user's debounce window. The
-- text of an entry (`JSON.stringify`, `JSON.parse`) is a parameter.
pub mod Order
mod Examples
use Prim.Native.String.{◌++◌ as str_append}
use cue_api.Common.{ℕ, ◌+◌, ◌*◌, max, String, Option, none, some, List, [], ◌∷◌, map, reverse, Bool}
use cue_api.Session.Redis.{Lists}

pub data InboundKind : Type 0 where
  text voice command callback : InboundKind

pub record BufferedMessage : Type 0 where
  pub text : String
  pub kind : InboundKind
  pub vendor_chat_id : String
  pub correlation_id : String
  pub chat_type : Option String
  pub language_code : Option String
  pub stt_language : Option String

pub record Json : Type 0 where
  pub stringify : BufferedMessage → String
  -- none where the text is malformed.
  pub parse : String → Option BufferedMessage

pub record BufferConfig : Type 0 where
  pub debounce_window_ms : ℕ
  pub debounce_queue_after_ms : ℕ

debounce_buffer_key_prefix : String
debounce_buffer_key_prefix = "assistant:debounce:buf"

pub debounce_buffer_key : String → String
debounce_buffer_key user_id = str_append (str_append debounce_buffer_key_prefix ":") user_id

buffer_ttl_ms : BufferConfig → ℕ
buffer_ttl_ms config =
    max (config.debounce_window_ms + config.debounce_queue_after_ms) (config.debounce_window_ms * 5)

module _ {R : Type 0} (lists : Lists R) (json : Json) (config : BufferConfig) where
  open lists use {lrange, rpush, lpush, del, pexpire}
  open json use {stringify, parse}

  pub append : R → String → BufferedMessage → R × ℕ
  append r user_id message =
      let key = debounce_buffer_key user_id in
      let (r', length) = rpush r key (stringify message) in
      (pexpire r' key (buffer_ttl_ms config), length)

  -- The script DRAIN_BUFFER.
  drain_buffer : R → String → R × List String
  drain_buffer r key = (del r key, lrange r key)

  -- The entry is kept where it could be parsed.
  keep_parsed : Option BufferedMessage → List BufferedMessage → List BufferedMessage
  keep_parsed none messages = messages
  keep_parsed (some parsed) messages = parsed ∷ messages

  parse_all : List String → List BufferedMessage
  parse_all [] = []
  parse_all (item ∷ raw) = keep_parsed (parse item) (parse_all raw)

  pub drain : R → String → R × List BufferedMessage
  drain r user_id =
      let (r', raw) = drain_buffer r (debounce_buffer_key user_id) in (r', parse_all raw)

  pub requeue_front : R → String → List BufferedMessage → R
  requeue_front r user_id [] = r
  requeue_front r user_id (message ∷ messages) =
      let key = debounce_buffer_key user_id in
      let serialized = map stringify (message ∷ messages) in
      pexpire (lpush r key (reverse serialized)) key (buffer_ttl_ms config)
