-- ===== src/Orchestration/Types.antt =====
-- The data of the tool loop: assistant.types.ts, ai.types.ts and the types of tool-loop.service.ts.
-- A JSON value is its text. Of the fields that only the connector reads, a request keeps the ones
-- that the loop changes.
use cue_api.Common.{ℕ, String, Bool, Option, List}

pub data AiStopReason : Type 0 where
  end_turn tool_use max_tokens stop_sequence refusal other : AiStopReason

pub data AiToolChoice : Type 0 where
  auto any : AiToolChoice
  named : String → AiToolChoice

pub data PromptRole : Type 0 where
  user assistant : PromptRole

pub record PromptBlock : Type 0 where
  pub role : PromptRole
  pub content : String

pub record ToolCall : Type 0 where
  pub id : String
  pub name : String
  pub input : String

pub record ToolResult : Type 0 where
  pub tool_call_id : String
  pub content : String
  pub is_error : Bool

pub record ToolRound : Type 0 where
  pub tool_calls : List ToolCall
  pub tool_results : List ToolResult
  pub assistant_text : Option String

-- What the connector returns for one round.
pub record AiCompletionResult : Type 0 where
  pub stop_reason : AiStopReason
  pub text : Option String
  pub tool_calls : Option (List ToolCall)

-- What the loop hands to the connector. The prompt's system part and tools are fixed in a turn.
pub record AiCompletionRequest : Type 0 where
  pub messages : List PromptBlock
  pub tool_rounds : List ToolRound
  pub tool_choice : Option AiToolChoice

pub record AskUserOption : Type 0 where
  pub id : String
  pub label : String

pub record AskUser : Type 0 where
  pub question : String
  pub options : List AskUserOption

pub record ToolDispatchOutcome : Type 0 where
  pub content : String
  pub is_error : Option Bool
  pub committed_count : Option ℕ
  pub attempted_count : Option ℕ
  pub ask_user : Option AskUser

pub data CorrectionReason : Type 0 where
  claim_without_writes writes_errored : CorrectionReason

pub record ToolStepRecord : Type 0 where
  pub name : String
  pub input : String
  pub result_content : String
  pub is_error : Bool
  pub held : Bool

pub record ToolRoundAuditPayload : Type 0 where
  pub correlation_id : String
  pub round : ℕ
  pub stop_reason : AiStopReason
  pub assistant_text : Option String
  pub steps : List ToolStepRecord
  pub correction_reason : Option CorrectionReason

pub record AskSuspension : Type 0 where
  pub tool_rounds : List ToolRound
  pub ask_tool_use_id : String
  pub question : String
  pub option_labels : List AskUserOption

pub data LoopOutcome : Type 0 where
  reply : String → LoopOutcome
  ask : AskSuspension → LoopOutcome
  unresolved : ℕ → LoopOutcome
  error : LoopOutcome

pub record ToolLoopResult : Type 0 where
  pub outcome : LoopOutcome
  pub rounds : List ToolRoundAuditPayload
  pub committed_writes : ℕ
  pub attempted_writes : ℕ
