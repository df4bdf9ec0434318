-- ===== src/Orchestration/Terminal.antt =====
-- terminal-classifier.ts, write-ledger.ts and correction-driver.ts: what a round without tool calls
-- means. The tests of the two regular expressions are parameters.
mod Laws
mod Examples
use cue_api.Common.{
  ℕ, String, Bool, true, false, Option, none, some, [], leb, ltb, if◌then◌else◌, get_or,
}
use cue_api.Orchestration.Types.{
  AiStopReason, end_turn, tool_use, max_tokens, stop_sequence, refusal, other, CorrectionReason,
  claim_without_writes, writes_errored, ToolRoundAuditPayload,
}

abbrev pub roundtrip_ceiling_reply : String
roundtrip_ceiling_reply =
    "That took more steps than I can take in one go — could you narrow it down a little?"

abbrev pub truncated_reply : String
truncated_reply = "I had to cut that short — ask me to continue and I'll finish."

abbrev pub refusal_reply : String
refusal_reply = "I'm not able to help with that one — try rephrasing, or ask me something else."

abbrev pub corrective_nudge : String
corrective_nudge =
    "You said you would make changes but called no tools, so nothing was saved. If you intend to act, call the tools now to actually make the changes; otherwise tell me what you need from me."

pub data TerminalClassification : Type 0 where
  genuine : TerminalClassification
  narration_without_write : CorrectionReason → TerminalClassification

unfoldable pub terminal_reply_text : AiStopReason → Option String → String
terminal_reply_text max_tokens text = truncated_reply
terminal_reply_text refusal text = refusal_reply
terminal_reply_text _ text = get_or text roundtrip_ceiling_reply

abbrev pub is_end_turn : AiStopReason → Bool
is_end_turn end_turn = true
is_end_turn _ = false

abbrev pub is_correction_budget_exhausted : ℕ → ℕ → Bool
is_correction_budget_exhausted corrections max_corrections = leb max_corrections corrections

unfoldable pub build_narration_audit_round :
    String → ℕ → AiStopReason → Option String → CorrectionReason → ToolRoundAuditPayload
build_narration_audit_round correlation_id round stop_reason text reason = record {
  correlation_id = correlation_id;
  round = round;
  stop_reason = stop_reason;
  assistant_text = text;
  steps = [];
  correction_reason = some reason;
}

pub record WriteLedgerDelta : Type 0 where
  pub attempted : ℕ
  pub committed : ℕ

unfoldable pub write_ledger_delta : Option ℕ → Option ℕ → Bool → WriteLedgerDelta
write_ledger_delta attempted_count committed_count is_error = record {
  attempted = get_or attempted_count 1;
  committed = get_or committed_count (if is_error then 0 else 1);
}

-- `CLAIM_VETO_PATTERN.test` and `MUTATION_CLAIM_PATTERN.test`.
pub record Patterns : Type 0 where
  pub vetoes : String → Bool
  pub claims : String → Bool

module _ (patterns : Patterns) where
  open patterns use {vetoes, claims}

  unfoldable pub classify_terminal_turn :
      AiStopReason → Option String → ℕ → ℕ → TerminalClassification
  classify_terminal_turn stop_reason text committed_writes attempted_writes =
      if ltb 0 committed_writes
      then genuine
      else if is_end_turn stop_reason
      then (let reply_text = get_or text "" in
          if vetoes reply_text
          then genuine
          else if ltb 0 attempted_writes
          then narration_without_write writes_errored
          else if claims reply_text
          then narration_without_write claim_without_writes
          else genuine)
      else genuine

  unfoldable pub is_false_success_reply : String → ℕ → ℕ → Bool
  is_false_success_reply text committed_writes attempted_writes =
      if ltb 0 committed_writes
      then false
      else if vetoes text
      then false
      else if ltb 0 attempted_writes
      then true
      else claims text
