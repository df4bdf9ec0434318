-- ===== src/Orchestration/Terminal/Laws.antt =====
-- When a terminal round is driven again.
use cue_api.Common.{ℕ, String, ◌≡◌, Bool, true, false, ◌&&◌, Option, arith, get_or}
use cue_api.Orchestration.Types.{AiStopReason}
use cue_api.Orchestration.Terminal.{
  Patterns, TerminalClassification, genuine, narration_without_write, is_end_turn,
  classify_terminal_turn, is_false_success_reply,
}

-- The round is driven again rather than answered.
abbrev pub re_driven : TerminalClassification → Bool
re_driven genuine = false
re_driven (narration_without_write reason) = true

module _ (patterns : Patterns) (stop_reason : AiStopReason) (text : Option String)
    (committed attempted : ℕ) where
  -- A terminal round is taken for a narration without a write exactly when it stopped on END_TURN
  -- and its text, empty if there is none, would be a false success by the guard that masks
  -- replies: the two detections agree.
  pub classify_terminal_turn-is_false_success_reply :
      re_driven (classify_terminal_turn patterns stop_reason text committed attempted) ≡ (
        is_end_turn stop_reason
        && is_false_success_reply patterns (get_or text "") committed attempted)
  unfolding classify_terminal_turn is_false_success_reply
  classify_terminal_turn-is_false_success_reply = ground arith
