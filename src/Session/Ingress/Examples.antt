-- ===== src/Session/Ingress/Examples.antt =====
-- The router of inbound-router.ts at concrete messages.
use cue_api.Common.{refl, inl, inr, true, none, some}
use cue_api.Session.MessageBuffer.{text}
use cue_api.Session.Keyboard.{main_surface}
use cue_api.Session.Ingress.{NormalizedInboundMessage, message_text, classify_flow}
use cue_api.Session.Ingress.Taps.{IsTap, classify_flow-IsTap}

abbrev next_week_message : NormalizedInboundMessage
next_week_message = record {
  kind = text;
  text = some "Next week";
  command = none;
  command_args = none;
  callback_data = none;
  callback_id = none;
}

classify_flow-IsTap_example : IsTap (classify_flow next_week_message (some main_surface) true none)
unfolding message_text
classify_flow-IsTap_example =
    (classify_flow-IsTap next_week_message (some main_surface) true none).1
      (refl, main_surface, refl, inl (inr (inl refl)))
