-- ===== src/Orchestration/ToolLoop/Budgets.antt =====
-- The budgets of a turn: model calls, schedule fetches and corrections.
use cue_api.Common.{ℕ, suc, ◌+◌, ◌≤◌, ◌<◌, List, arith, Bool-cases, inl, inr, if◌then◌else◌}
use cue_api.Orchestration.Types.{
  ToolCall, ToolRound, AiCompletionRequest, AiCompletionResult, ToolStepRecord, ToolLoopResult,
}
use cue_api.Orchestration.Calls.{CallsEnd, done, asked, threw, visit_calls}
use cue_api.Orchestration.Calls.Cap.{end_state, visit_calls-Within}
use cue_api.Orchestration.Calls.World.{visit_calls-Sound}
use cue_api.Orchestration.ToolLoop.{
  Services, LoopConfig, LoopState, start_calls, logged, settle_round, round_trip, run, request_of,
}
use cue_api.Orchestration.ToolLoop.Rule.{Leads, run-rule, replied, round_trip-cases}

-- How often the world saw the model asked and schedule data fetched.
pub record Meter {World : Type 0} (services : Services World) (config : LoopConfig) : Type 0 where
  pub asks : World → ℕ
  pub fetched : World → ℕ
  pub context_free :
      (w : World)
      → (asks (services.build_context w).0 ≤ asks w)
        × (fetched (services.build_context w).0 ≤ fetched w)
  pub model_once :
      (w : World) (request : AiCompletionRequest)
      → (asks (services.complete_stream w request).0 ≤ asks w + 1)
        × (fetched (services.complete_stream w request).0 ≤ fetched w)
  pub tools_ask_nothing : (w : World) (call : ToolCall) → asks (services.dispatch w call).0 ≤ asks w
  pub tools_fetch :
      (w : World) (call : ToolCall)
      → fetched (services.dispatch w call).0
        ≤ fetched w + (if config.accounting.is_schedule_fetch call.name then 1 else 0)
  pub recap_free :
      (w : World) (steps : List ToolStepRecord)
      → (asks (services.render_round_recap w steps) ≤ asks w)
        × (fetched (services.render_round_recap w steps) ≤ fetched w)

module _ {World : Type 0} (services : Services World) (config : LoopConfig)
    (meter : Meter services config) (asks0 fetched0 : ℕ) where
  open meter use {asks, fetched}

  pub record Spends (r : ℕ) (s : LoopState World) : Type 0 where
    pub asked_so_far : asks s.world ≤ asks0 + r
    pub fetched_so_far : fetched s.world ≤ fetched0 + s.schedule_fetches
    pub capped_so_far : s.schedule_fetches ≤ config.accounting.max_schedule_fetches

  abbrev WithinBudget : World → ToolLoopResult → Type 0
  WithinBudget w result =
      (asks w ≤ asks0 + config.max_tool_roundtrips)
      × (fetched w ≤ fetched0 + config.accounting.max_schedule_fetches)

  module _ (r : ℕ) (s : LoopState World) (left : r < config.max_tool_roundtrips)
      (h : Spends r s) where
    abbrev s' : LoopState World
    s' = replied services config (Leads services config Spends WithinBudget r) r s

    replied-Spends :
        (asks s'.world ≤ asks0 + suc r) × (fetched s'.world ≤ fetched0 + s.schedule_fetches)
    replied-Spends = (
      omega (arith, meter.model_once s.world (request_of services config s), h.asked_so_far),
      omega (arith, meter.model_once s.world (request_of services config s), h.fetched_so_far),
    )

    replied-WithinBudget :
        (asks s'.world ≤ asks0 + config.max_tool_roundtrips)
        × (fetched s'.world ≤ fetched0 + config.accounting.max_schedule_fetches)
    replied-WithinBudget =
        (omega (arith, replied-Spends), omega (arith, replied-Spends, h.capped_so_far))

    settle_round-Spends :
        (result : AiCompletionResult) (calls : List ToolCall) (e : CallsEnd World)
        → asks (end_state e).world ≤ asks s'.world
        → fetched (end_state e).world + s.schedule_fetches
          ≤ fetched s'.world + (end_state e).schedule_fetches
        → (end_state e).schedule_fetches ≤ config.accounting.max_schedule_fetches
        → Leads services config Spends WithinBudget r
            (settle_round services config r s' result calls e)
    unfolding settle_round logged
    settle_round-Spends result calls (done c) a f m = elim (Bool-cases config.has_sink) [
      | inl e ↦ rw e (record {
        asked_so_far = omega (arith, replied-Spends, meter.recap_free c.world c.steps);
        fetched_so_far = omega (arith, replied-Spends, meter.recap_free c.world c.steps);
        capped_so_far = m;
      })
      | inr e ↦ rw e (record {
        asked_so_far = omega (arith, replied-Spends);
        fetched_so_far = omega (arith, replied-Spends);
        capped_so_far = m;
      })
    ]
    settle_round-Spends result calls (asked c call q) a f m =
        (omega (arith, replied-Spends), omega (arith, replied-Spends))
    settle_round-Spends result calls (threw c) a f m =
        (omega (arith, replied-Spends), omega (arith, replied-Spends))

    round_trip-Spends : Leads services config Spends WithinBudget r (round_trip services config r s)
    round_trip-Spends =
        round_trip-cases services config (Leads services config Spends WithinBudget r) r s
          replied-WithinBudget (λ result e. replied-WithinBudget) (λ result e. replied-WithinBudget)
          (λ result reason e k p. replied-WithinBudget)
          (λ result reason k. record {
            asked_so_far = replied-Spends.0;
            fetched_so_far = replied-Spends.1;
            capped_so_far = h.capped_so_far;
          })
          called
      where
        called :
            (result : AiCompletionResult) (calls : List ToolCall)
            → Leads services config Spends WithinBudget r (
                settle_round services config r s' result calls (
                  visit_calls services.dispatch config.accounting
                    (start_calls services config s')
                    calls))
        called result calls =
            settle_round-Spends result calls _
              (visit_calls-Sound services.dispatch config.accounting (λ w. asks w ≤ asks s'.world)
                (λ w call k. omega (arith, k, meter.tools_ask_nothing w call))
                (start_calls services config s') calls (omega arith))
              (visit_calls-Within services.dispatch config.accounting fetched meter.tools_fetch
                (start_calls services config s') calls h.capped_so_far).0
              (visit_calls-Within services.dispatch config.accounting fetched meter.tools_fetch
                (start_calls services config s') calls h.capped_so_far).1

module _ {World : Type 0} (services : Services World) (config : LoopConfig)
    (meter : Meter services config) where
  -- However a run ends, the world saw the model asked at most `max_tool_roundtrips` times more than
  -- at its start, and schedule data fetched at most `max_schedule_fetches` times more, if only the
  -- model and the accounted tools count and each counts once.
  pub run-budget :
      (world : World) (resume_rounds : List ToolRound)
      → (meter.asks (run services config world resume_rounds).0
          ≤ meter.asks world + config.max_tool_roundtrips)
        × (meter.fetched (run services config world resume_rounds).0
            ≤ meter.fetched world + config.accounting.max_schedule_fetches)
  run-budget world resume_rounds =
      run-rule services config
        (Spends services config meter (meter.asks world) (meter.fetched world))
        (WithinBudget services config meter (meter.asks world) (meter.fetched world))
        (round_trip-Spends services config meter (meter.asks world) (meter.fetched world))
        (λ r s k h.
          (omega (arith, h.asked_so_far), omega (arith, h.fetched_so_far, h.capped_so_far)))
        world resume_rounds
        (λ messages. record {
          asked_so_far = omega (arith, meter.context_free world);
          fetched_so_far = omega (arith, meter.context_free world);
          capped_so_far = omega arith;
        })
        (omega (arith, meter.context_free world), omega (arith, meter.context_free world))
