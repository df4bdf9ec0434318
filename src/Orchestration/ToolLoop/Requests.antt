-- ===== src/Orchestration/ToolLoop/Requests.antt =====
-- What the loop hands to the model: tool calls paired with their results, and a forced tool choice
-- only after a nudge.
use cue_api.Common.{
  ℕ, ◌<◌, ◌≡◌, refl, sym, Option, none, some, List, [], ◌∷◌, ◌++◌, append_assoc, All, All-append,
  ◌⊎◌, inl, inr, ◌==◌, Bool-cases,
}
use cue_api.Orchestration.Types.{
  AiToolChoice, any, PromptBlock, ToolCall, ToolRound, AiCompletionRequest, AiCompletionResult,
  ToolStepRecord, ToolLoopResult, CorrectionReason,
}
use cue_api.Orchestration.Terminal.{
  TerminalClassification, genuine, narration_without_write, is_correction_budget_exhausted,
}
use cue_api.Orchestration.Calls.{CallsEnd, done, asked, threw}
use cue_api.Orchestration.Calls.Pairing.{answered, ids, Answers, visit_calls-Answers}
use cue_api.Orchestration.Calls.Cap.{end_state}
use cue_api.Orchestration.Calls.World.{visit_calls-Sound}
use cue_api.Orchestration.ToolLoop.{
  Services, LoopConfig, LoopState, nudge, narration, start_calls, logged, narrated, terminal_round,
  settle_round, round_of, take_result, take_reply, request_of, round_trip, run, requested,
}
use cue_api.Orchestration.ToolLoop.Rule.{Leads, run-rule}

-- Each call of the round has its result, in order: what the provider demands of a request.
abbrev pub IsPaired : ToolRound → Type 0
IsPaired round = answered round.tool_results ≡ ids round.tool_calls

-- The tool choice is free, or it is forced and the last message is the corrective nudge.
abbrev pub IsForcedByNudge : List PromptBlock → Option AiToolChoice → Type 0
IsForcedByNudge messages choice =
    (choice ≡ none)
    ⊎ ((before : List PromptBlock) × (messages ≡ before ++ nudge ∷ []) × (choice ≡ some any))

-- A request that the provider accepts, and that forces tools only right after a nudge.
abbrev pub IsWellFormed : AiCompletionRequest → Type 0
IsWellFormed request =
    All IsPaired request.tool_rounds × IsForcedByNudge request.messages request.tool_choice

-- A property of the world that every service keeps, the model on well-formed requests.
pub record Keeps {World : Type 0} (services : Services World) (Sound : World → Type 0)
    : Type 0 where
  pub context : (w : World) → Sound w → Sound (services.build_context w).0
  pub model :
      (w : World) (request : AiCompletionRequest)
      → IsWellFormed request
      → Sound w
      → Sound (services.complete_stream w request).0
  pub tools : (w : World) (call : ToolCall) → Sound w → Sound (services.dispatch w call).0
  pub recap :
      (w : World) (steps : List ToolStepRecord)
      → Sound w
      → Sound (services.render_round_recap w steps)

module _ {World : Type 0} (services : Services World) (config : LoopConfig) (Sound : World → Type 0)
    (keeps : Keeps services Sound) where
  abbrev Invariant : ℕ → LoopState World → Type 0
  Invariant r s = Sound s.world × IsWellFormed (request_of services config s)

  abbrev Accepted : World → ToolLoopResult → Type 0
  Accepted w result = Sound w

  narrated-Leads :
      (r : ℕ) (s : LoopState World) (result : AiCompletionResult) (reason : CorrectionReason)
      → Sound s.world
      → All IsPaired s.tool_rounds
      → Leads services config Invariant Accepted r (narrated config r s result reason)
  unfolding narrated
  narrated-Leads r s result reason h k =
      elim (Bool-cases (is_correction_budget_exhausted s.corrections config.max_corrections)) [
        | inl e ↦ elim (Bool-cases (config.max_corrections == 0)) [
          | inl z ↦ rw (e, z) h
          | inr z ↦ rw (e, z) h
        ]
        | inr e ↦ rw e (
          h,
          (
            k,
            inr (
              s.messages ++ narration result.text,
              sym (append_assoc s.messages (narration result.text) (nudge ∷ [])),
              refl,
            ),
          ),
        )
      ]

  settle_round-Leads :
      (r : ℕ) (s : LoopState World) (result : AiCompletionResult) (calls : List ToolCall)
      (e : CallsEnd World)
      → s.forced_tool_choice ≡ none
      → All IsPaired s.tool_rounds
      → Sound (end_state e).world
      → Answers [] calls e
      → Leads services config Invariant Accepted r (settle_round services config r s result calls e)
  unfolding settle_round logged
  settle_round-Leads r s result calls (done c) free k h p = elim (Bool-cases config.has_sink) [
    | inl e ↦ rw e (keeps.recap c.world c.steps h, (paired, inl free))
    | inr e ↦ rw e (h, (paired, inl free))
  ]
    where
      paired : All IsPaired (s.tool_rounds ++ round_of calls c.results result.text ∷ [])
      paired = All-append IsPaired s.tool_rounds _ k (p, tt)
  settle_round-Leads r s result calls (asked c call q) free k h p = h
  settle_round-Leads r s result calls (threw c) free k h p = h

  terminal_round-Leads :
      (r : ℕ) (s : LoopState World) (result : AiCompletionResult) (c : TerminalClassification)
      → Sound s.world
      → All IsPaired s.tool_rounds
      → Leads services config Invariant Accepted r (terminal_round config r s result c)
  unfolding terminal_round
  terminal_round-Leads r s result genuine h k = h
  terminal_round-Leads r s result (narration_without_write reason) h k =
      narrated-Leads r s result reason h k

  take_result-Leads :
      (r : ℕ) (s : LoopState World) (result : AiCompletionResult) (calls : List ToolCall)
      → s.forced_tool_choice ≡ none
      → Sound s.world
      → All IsPaired s.tool_rounds
      → Leads services config Invariant Accepted r (take_result services config r s result calls)
  unfolding take_result
  take_result-Leads r s result [] free h k = terminal_round-Leads r s result _ h k
  take_result-Leads r s result (call ∷ calls) free h k =
      settle_round-Leads r s result (call ∷ calls) _ free k
        (visit_calls-Sound services.dispatch config.accounting Sound keeps.tools
          (start_calls services config s) (call ∷ calls) h)
        (visit_calls-Answers services.dispatch config.accounting (start_calls services config s)
          (call ∷ calls))

  take_reply-Leads :
      (r : ℕ) (s : LoopState World) (reply : Option AiCompletionResult)
      → s.forced_tool_choice ≡ none
      → Sound s.world
      → All IsPaired s.tool_rounds
      → Leads services config Invariant Accepted r (take_reply services config r s reply)
  unfolding take_reply
  take_reply-Leads r s none free h k = h
  take_reply-Leads r s (some result) free h k =
      take_result-Leads r s result (requested result.tool_calls) free h k

  round_trip-Leads :
      (r : ℕ) (s : LoopState World)
      → r < config.max_tool_roundtrips
      → Invariant r s
      → Leads services config Invariant Accepted r (round_trip services config r s)
  unfolding round_trip
  round_trip-Leads r s m (h, k) =
      take_reply-Leads r _ (services.complete_stream s.world (request_of services config s)).1 refl
        (keeps.model s.world (request_of services config s) k h) k.0

  -- A run that resumes from paired rounds keeps every property of the world that the services keep,
  -- where the model has to keep it only on well-formed requests: each request of a run has a result
  -- for each tool call of the earlier rounds, in order, and forces a tool call only if its last
  -- message is the corrective nudge.
  pub run-Keeps :
      (world : World) (resume_rounds : List ToolRound)
      → All IsPaired resume_rounds
      → Sound world
      → Sound (run services config world resume_rounds).0
  run-Keeps world resume_rounds paired h =
      run-rule services config Invariant Accepted round_trip-Leads (λ r s m k. k.0) world
        resume_rounds (λ messages. (keeps.context world h, (paired, inl refl)))
        (keeps.context world h)
