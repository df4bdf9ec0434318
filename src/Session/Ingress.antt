-- ===== src/Session/Ingress.antt =====
-- modules/assistant/ingress/inbound-router.ts: the flow that an inbound update takes.
pub mod Taps
mod Examples
use package.text.Mathlib.Text.{◌==◌ as str_eq, starts_with}
use cue_api.Common.{
  String, Bool, true, false, not, ◌&&◌, Option, none, some, List, [], if◌then◌else◌, get_or,
}
use cue_api.Session.MessageBuffer.{InboundKind, text, voice, command, callback}
use cue_api.Session.Keyboard.{KeyboardSurface, FoundAction, resolve_keyboard_action}

-- The fields that the router reads of a NormalizedInboundMessage.
pub record NormalizedInboundMessage : Type 0 where
  pub kind : InboundKind
  pub text : Option String
  pub command : Option String
  pub command_args : Option (List String)
  pub callback_data : Option String
  pub callback_id : Option String

pub data AnswerSource : Type 0 where
  from_callback from_text : AnswerSource

pub record AnswerFlow : Type 0 where
  pub source : AnswerSource
  pub text : String
  pub content_type : InboundKind
  pub callback_id : Option String
  pub callback_data : Option String

pub data InboundFlow : Type 0 where
  command_flow : String → List String → InboundFlow
  answer_flow : AnswerFlow → InboundFlow
  keyboard_flow : FoundAction → InboundFlow
  simple_flow : String → InboundKind → InboundFlow

abbrev pub ask_callback_prefix : String
ask_callback_prefix = "ask:"

-- A text that is present and not empty, `normalized.command &&`.
pub given_text : Option String → Option String
given_text none = none
given_text (some t) = if str_eq t "" then none else some t

unfoldable pub message_text : NormalizedInboundMessage → Option String → String
message_text m transcript = elim m.kind [ voice ↦ get_or transcript "" | _ ↦ get_or m.text "" ]

-- The end of the router: an answer to a pending question, or a fresh turn.
pub answer_or_simple : Bool → InboundKind → String → InboundFlow
answer_or_simple true kind t = answer_flow (record {
  source = from_text;
  text = t;
  content_type = kind;
  callback_id = none;
  callback_data = none;
})
answer_or_simple false kind t = simple_flow t kind

-- The tap of a docked surface, if the typed text is one.
pub tap_of : Option KeyboardSurface → String → Option FoundAction
tap_of none t = none
tap_of (some surface) t = if str_eq t "" then none else resolve_keyboard_action surface t

pub tap_or : Option FoundAction → InboundFlow → InboundFlow
tap_or none flow = flow
tap_or (some action) flow = keyboard_flow action

-- The flow of a callback with an id, if its data is an answer.
pub callback_flow : Option String → Option String → Option InboundFlow
callback_flow none data_given = none
callback_flow (some id) data_given =
    let data_text = get_or data_given "" in
    if starts_with data_text ask_callback_prefix
    then some (
        answer_flow (record {
          source = from_callback;
          text = data_text;
          content_type = callback;
          callback_id = some id;
          callback_data = some data_text;
        }))
    else none

-- What the active keyboard and the pending questions say of the user are arguments.
pub classify_flow :
    NormalizedInboundMessage → Option KeyboardSurface → Bool → Option String → InboundFlow
classify_flow m surface pending transcript =
    let plain = answer_or_simple pending m.kind (message_text m transcript) in
    elim m.kind [
      | text ↦ tap_or (tap_of surface (message_text m transcript)) plain
      | voice ↦ plain
      | command ↦ elim (given_text m.command) [
        | none ↦ plain
        | some name ↦ command_flow name (get_or m.command_args [])
      ]
      | callback ↦ get_or (callback_flow (given_text m.callback_id) m.callback_data) plain
    ]
