-- ===== src/Orchestration/ToolLoop/Rule.antt =====
-- The invariant rule of the tool loop.
use cue_api.Common.{
  ℕ, zero, suc, ◌+◌, ◌≤◌, ◌<◌, ◌≡◌, refl, Option, none, some, List, [], ◌∷◌, ◌++◌, arith, leb, ◌==◌,
  leb→le, leb→lt, Bool-cases, inl, inr,
}
use cue_api.Orchestration.Types.{
  ToolRound, ToolCall, PromptBlock, AiCompletionResult, CorrectionReason, reply, error, unresolved,
  ToolLoopResult,
}
use cue_api.Orchestration.Calls.{visit_calls}
use cue_api.Orchestration.Terminal.{
  roundtrip_ceiling_reply, terminal_reply_text, TerminalClassification, genuine,
  narration_without_write, classify_terminal_turn,
}
use cue_api.Orchestration.ToolLoop.{
  Services, LoopConfig, LoopState, RoundEnd, ended, again, finish, round_trip, round_trips,
  start_state, start_with, run, narrated, terminal_round, settle_round, take_result, take_reply,
  start_calls, request_of, narration_row, re_driven_state, requested,
}

module _ {World : Type 0} (services : Services World) (config : LoopConfig)
    (P : ℕ → LoopState World → Type 0) (Q : World → ToolLoopResult → Type 0) where
  -- A round trip at a state of the invariant leads to one, or ends in an accepted result.
  abbrev pub Leads : ℕ → RoundEnd World → Type 0
  Leads roundtrip (ended world result) = Q world result
  Leads roundtrip (again s) = P (suc roundtrip) s

  module _
      (step : (r : ℕ) (s : LoopState World)
        → r < config.max_tool_roundtrips
        → P r s
        → Leads r (round_trip services config r s))
      (ceiling : (r : ℕ) (s : LoopState World)
        → r ≤ config.max_tool_roundtrips
        → P r s
        → Q s.world (finish config s (reply roundtrip_ceiling_reply))) where
    -- With an invariant that each round trip keeps, the loop ends in an accepted result.
    pub round_trips-rule :
        (left r : ℕ) (s : LoopState World)
        → left + r ≡ config.max_tool_roundtrips
        → P r s
        → Q (round_trips services config left r s).0 (round_trips services config left r s).1
    unfolding round_trips
    round_trips-rule zero r s m h = ceiling r s (omega arith) h
    round_trips-rule (suc left) r s m h =
        go (round_trip services config r s) (step r s (omega arith) h)
          (λ s' k. round_trips-rule left (suc r) s' (omega arith) k)
      where
        go :
            (e : RoundEnd World)
            → Leads r e
            → ((s' : LoopState World)
                → P (suc r) s'
                → Q
                    (round_trips services config left (suc r) s').0
                    (round_trips services config left (suc r) s').1)
            → let out = elim e as (λ x. World × ToolLoopResult) [
              | ended world result ↦ (world, result)
              | again s' ↦ round_trips services config left (suc r) s'
            ] in
              Q out.0 out.1
        go (ended world result) k ih = k
        go (again s') k ih = ih s' k

    -- So does the whole run, if the invariant holds at its start and an error there is accepted.
    pub run-rule :
        (world : World) (resume_rounds : List ToolRound)
        → ((messages : List PromptBlock)
            → P 0 (
                start_state services config
                  (services.build_context world).0
                  resume_rounds
                  messages))
        → Q (services.build_context world).0 (
            finish config
              (start_state services config (services.build_context world).0 resume_rounds [])
              error)
        → Q (run services config world resume_rounds).0 (run services config world resume_rounds).1
    unfolding run start_with
    run-rule world resume_rounds start failed = go (services.build_context world).1
      where
        go :
            (prompt : Option (List PromptBlock))
            → let out =
                start_with services config (services.build_context world).0 resume_rounds prompt in
              Q out.0 out.1
        go none = failed
        go (some messages) =
            round_trips-rule config.max_tool_roundtrips 0 _ (omega arith) (start messages)

-- The cases of a round trip: what holds of each of its ends holds of it.
module _ {World : Type 0} (services : Services World) (config : LoopConfig)
    (R : RoundEnd World → Type 0) (r : ℕ) (s : LoopState World) where
  -- The state once the model has answered.
  abbrev pub replied : LoopState World
  replied = record s {
    world = (services.complete_stream s.world (request_of services config s)).0;
    forced_tool_choice = none;
  }

  abbrev pub classified : AiCompletionResult → TerminalClassification
  classified result =
      classify_terminal_turn config.patterns result.stop_reason result.text s.committed_writes
        s.attempted_writes

  abbrev pub final_reply : AiCompletionResult → RoundEnd World
  final_reply result =
      ended replied.world
        (finish config replied (reply (terminal_reply_text result.stop_reason result.text)))

  abbrev pub Thrown : Type 0
  Thrown = R (ended replied.world (finish config replied error))

  abbrev pub Replied : Type 0
  Replied = (result : AiCompletionResult) → classified result ≡ genuine → R (final_reply result)

  abbrev pub Masked : Type 0
  Masked = (result : AiCompletionResult) → config.max_corrections ≡ 0 → R (final_reply result)

  abbrev pub Exhausted : Type 0
  Exhausted =
      (result : AiCompletionResult) (reason : CorrectionReason)
      → classified result ≡ narration_without_write reason
      → config.max_corrections ≤ s.corrections
      → 0 < config.max_corrections
      → R (
          ended replied.world (
            finish config
              (record replied {
                rounds = s.rounds ++ narration_row config.correlation_id r result reason ∷ [];
              })
              (unresolved s.corrections)))

  abbrev pub ReDriven : Type 0
  ReDriven =
      (result : AiCompletionResult) (reason : CorrectionReason)
      → s.corrections < config.max_corrections
      → R (again (re_driven_state config r replied result reason))

  abbrev pub Called : Type 0
  Called =
      (result : AiCompletionResult) (calls : List ToolCall)
      → R (
          settle_round services config r replied result calls (
            visit_calls services.dispatch config.accounting (start_calls services config replied)
              calls))

  module _ (thrown : Thrown) (genuine_reply : Replied) (masked : Masked) (exhausted : Exhausted)
      (re_driven : ReDriven) (called : Called) where
    narrated-cases :
        (result : AiCompletionResult) (reason : CorrectionReason)
        → classified result ≡ narration_without_write reason
        → R (narrated config r replied result reason)
    unfolding narrated
    narrated-cases result reason c = elim (Bool-cases (leb config.max_corrections s.corrections)) [
      | inl e ↦ elim (Bool-cases (config.max_corrections == 0)) [
        | inl z ↦ rw (e, z) (masked result (ground arith))
        | inr z ↦ rw (e, z) (exhausted result reason c (leb→le _ _ e) (ground arith))
      ]
      | inr e ↦ rw e (re_driven result reason (leb→lt _ _ e))
    ]

    terminal-cases :
        (result : AiCompletionResult) (c : TerminalClassification)
        → classified result ≡ c
        → R (terminal_round config r replied result c)
    unfolding terminal_round
    terminal-cases result genuine e = genuine_reply result e
    terminal-cases result (narration_without_write reason) e = narrated-cases result reason e

    pub round_trip-cases : R (round_trip services config r s)
    unfolding round_trip take_reply take_result
    round_trip-cases = go (services.complete_stream s.world (request_of services config s)).1
      where
        results :
            (result : AiCompletionResult) (calls : List ToolCall)
            → R (take_result services config r replied result calls)
        results result [] = terminal-cases result (classified result) refl
        results result (call ∷ calls) = called result (call ∷ calls)

        go : (o : Option AiCompletionResult) → R (take_reply services config r replied o)
        go none = thrown
        go (some result) = results result (requested result.tool_calls)
