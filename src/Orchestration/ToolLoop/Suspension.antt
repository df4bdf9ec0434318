-- ===== src/Orchestration/ToolLoop/Suspension.antt =====
-- What a turn that asks the user hands over to be resumed.
use cue_api.Common.{ℕ, ◌<◌, ◌≡◌, refl, List, [], ◌∷◌, ◌++◌, All, All-append, Bool-cases, inl, inr}
use cue_api.Orchestration.Types.{
  ToolCall, ToolRound, AiCompletionResult, LoopOutcome, reply, ask, unresolved, error,
  AskSuspension, ToolLoopResult,
}
use cue_api.Orchestration.Calls.{CallsEnd, done, asked, threw}
use cue_api.Orchestration.Calls.Pairing.{answered, ids, Answers, visit_calls-Answers}
use cue_api.Orchestration.ToolLoop.{
  Services, LoopConfig, LoopState, start_calls, logged, settle_round, round_of, round_trip, run,
}
use cue_api.Orchestration.ToolLoop.Rule.{Leads, run-rule, replied, round_trip-cases}
use cue_api.Orchestration.ToolLoop.Requests.{IsPaired}

-- Of the suspended rounds only the last has calls without a result: the `ask_user` call that the
-- suspension names, and those after it.
abbrev pub IsResumable : AskSuspension → Type 0
IsResumable suspension =
    (paired : List ToolRound) × (last : ToolRound) × (before : List ToolCall) × (call : ToolCall)
    × (after : List ToolCall) × (suspension.tool_rounds ≡ paired ++ last ∷ [])
    × All IsPaired paired
    × (last.tool_calls ≡ before ++ call ∷ after)
    × (answered last.tool_results ≡ ids before)
    × (suspension.ask_tool_use_id ≡ call.id)

abbrev pub SuspendsWell : LoopOutcome → Type 0
SuspendsWell (ask suspension) = IsResumable suspension
SuspendsWell (reply text) = Unit {0}
SuspendsWell (unresolved n) = Unit {0}
SuspendsWell error = Unit {0}

module _ {World : Type 0} (services : Services World) (config : LoopConfig) where
  abbrev Paired : ℕ → LoopState World → Type 0
  Paired r s = All IsPaired s.tool_rounds

  abbrev Suspended : World → ToolLoopResult → Type 0
  Suspended w result = SuspendsWell result.outcome

  module _ (r : ℕ) (s : LoopState World) (left : r < config.max_tool_roundtrips)
      (h : All IsPaired s.tool_rounds) where
    abbrev s' : LoopState World
    s' = replied services config (Leads services config Paired Suspended r) r s

    settle_round-Paired :
        (result : AiCompletionResult) (calls : List ToolCall) (e : CallsEnd World)
        → Answers [] calls e
        → Leads services config Paired Suspended r
            (settle_round services config r s' result calls e)
    unfolding settle_round logged
    settle_round-Paired result calls (done c) p = elim (Bool-cases config.has_sink) [
      | inl e ↦ rw e (All-append IsPaired s.tool_rounds _ h (p, tt))
      | inr e ↦ rw e (All-append IsPaired s.tool_rounds _ h (p, tt))
    ]
    settle_round-Paired result calls (asked c call q) (before, after, e, k) = (
      s.tool_rounds,
      round_of calls c.results result.text,
      before,
      call,
      after,
      refl,
      h,
      e,
      k,
      refl,
    )
    settle_round-Paired result calls (threw c) p = tt

    round_trip-Paired : Leads services config Paired Suspended r (round_trip services config r s)
    round_trip-Paired =
        round_trip-cases services config (Leads services config Paired Suspended r) r s tt
          (λ result e. tt) (λ result e. tt) (λ result reason e k p. tt) (λ result reason k. h)
          (λ result calls. settle_round-Paired result calls _ (
            visit_calls-Answers services.dispatch config.accounting (start_calls services config s')
              calls))

  -- A run that resumes from paired rounds and ends with a question to the user hands over rounds of
  -- which all but the last are paired; the last has answers to exactly the calls before the
  -- `ask_user` call that the suspension names.
  pub run-IsResumable :
      (world : World) (resume_rounds : List ToolRound)
      → All IsPaired resume_rounds
      → SuspendsWell (run services config world resume_rounds).1.outcome
  run-IsResumable world resume_rounds paired =
      run-rule services config Paired Suspended round_trip-Paired (λ r s k h. tt) world
        resume_rounds (λ messages. paired) tt
