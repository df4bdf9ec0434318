-- ===== src/Orchestration/Terminal/Examples.antt =====
-- A claim without a write.
use cue_api.Common.{◌≡◌, false, ◌&&◌, some}
use text.Mathlib.Text.{◌==◌ as str_eq}
use cue_api.Orchestration.Types.{end_turn}
use cue_api.Orchestration.Terminal.{
  Patterns, classify_terminal_turn, is_end_turn, is_false_success_reply,
}
use cue_api.Orchestration.Terminal.Laws.{re_driven, classify_terminal_turn-is_false_success_reply}

abbrev patterns : Patterns
patterns = record { vetoes = λ text. false; claims = λ text. str_eq text "Added it." }

classify_terminal_turn-is_false_success_reply_example :
    re_driven (classify_terminal_turn patterns end_turn (some "Added it.") 0 0)
    ≡ (is_end_turn end_turn && is_false_success_reply patterns "Added it." 0 0)
classify_terminal_turn-is_false_success_reply_example =
    classify_terminal_turn-is_false_success_reply patterns end_turn (some "Added it.") 0 0
