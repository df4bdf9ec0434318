-- ===== src/Orchestration/ToolLoop/Audit.antt =====
-- The audit rows of a run and its corrections.
use mathlib.Core.List.{map-append}
use cue_api.Common.{
  ℕ, zero, suc, ◌≤◌, ◌<◌, ◌≡◌, refl, ◌∙◌, String, Option, List, [], ◌∷◌, ◌++◌, map, arith,
  Bool-cases, inl, inr,
}
use cue_api.Orchestration.Types.{
  ToolCall, ToolRound, AiStopReason, AiCompletionResult, LoopOutcome, reply, ask, unresolved, error,
  ToolLoopResult, ToolRoundAuditPayload, CorrectionReason,
}
use cue_api.Orchestration.Terminal.{
  Patterns, narration_without_write, build_narration_audit_round, classify_terminal_turn,
}
use cue_api.Orchestration.Calls.{CallsEnd, done, asked, threw}
use cue_api.Orchestration.ToolLoop.{
  Services, LoopConfig, LoopState, logged, settle_round, round_trip, run,
}
use cue_api.Orchestration.ToolLoop.Rule.{Leads, run-rule, replied, round_trip-cases}

-- The numbers below n, in order.
abbrev pub upto : ℕ → List ℕ
upto zero = []
upto (suc n) = upto n ++ n ∷ []

abbrev pub numbers : List ToolRoundAuditPayload → List ℕ
numbers = map λ row. row.round

-- What the outcome of a run says of the rest of its result: an unresolved turn used up a positive
-- correction budget and committed nothing.
abbrev pub Fits : ℕ → LoopOutcome → ToolLoopResult → Type 0
Fits max_corrections (unresolved n) result =
    (n ≡ max_corrections) × (0 < n) × (result.committed_writes ≡ 0)
Fits max_corrections (reply text) result = Unit {0}
Fits max_corrections (ask suspension) result = Unit {0}
Fits max_corrections error result = Unit {0}

-- A round is only a narration where nothing was committed.
classify_terminal_turn-committed :
    (patterns : Patterns) (stop_reason : AiStopReason) (text : Option String)
    (committed attempted : ℕ) (reason : CorrectionReason)
    → classify_terminal_turn patterns stop_reason text committed attempted
      ≡ narration_without_write reason
    → committed ≡ 0
unfolding classify_terminal_turn
classify_terminal_turn-committed patterns stop_reason text zero attempted reason e = refl
classify_terminal_turn-committed patterns stop_reason text (suc n) attempted reason e = ground arith

module _ {World : Type 0} (services : Services World) (config : LoopConfig) where
  record Numbered (r : ℕ) (s : LoopState World) : Type 0 where
    pub numbered : numbers s.rounds ≡ upto r
    pub corrected : s.corrections ≤ config.max_corrections

  abbrev Audited : World → ToolLoopResult → Type 0
  Audited w result =
      ((n : ℕ) × (n ≤ config.max_tool_roundtrips) × (numbers result.rounds ≡ upto n))
      × Fits config.max_corrections result.outcome result

  -- One row more.
  numbers-snoc :
      (r : ℕ) (rows : List ToolRoundAuditPayload) (row : ToolRoundAuditPayload)
      → numbers rows ≡ upto r
      → row.round ≡ r
      → numbers (rows ++ row ∷ []) ≡ upto (suc r)
  numbers-snoc r rows row h e = map-append _ rows (row ∷ []) ∙ rw (h, e) refl

  module _ (r : ℕ) (s : LoopState World) (left : r < config.max_tool_roundtrips)
      (h : Numbered r s) where
    abbrev s' : LoopState World
    s' = replied services config (Leads services config Numbered Audited r) r s

    settle_round-Numbered :
        (result : AiCompletionResult) (calls : List ToolCall) (e : CallsEnd World)
        → Leads services config Numbered Audited r
            (settle_round services config r s' result calls e)
    unfolding settle_round logged
    settle_round-Numbered result calls (done c) = elim (Bool-cases config.has_sink) [
      | inl e ↦
          rw e (record {
            numbered = numbers-snoc r s.rounds _ h.numbered refl;
            corrected = h.corrected;
          })
      | inr e ↦
          rw e (record {
            numbered = numbers-snoc r s.rounds _ h.numbered refl;
            corrected = h.corrected;
          })
    ]
    settle_round-Numbered result calls (asked c call q) =
        ((suc r, omega arith, numbers-snoc r s.rounds _ h.numbered refl), tt)
    settle_round-Numbered result calls (threw c) = ((r, omega arith, h.numbered), tt)

    round_trip-Numbered : Leads services config Numbered Audited r (round_trip services config r s)
    unfolding build_narration_audit_round
    round_trip-Numbered =
        round_trip-cases services config (Leads services config Numbered Audited r) r s
          ((r, omega arith, h.numbered), tt) (λ result e. ((r, omega arith, h.numbered), tt))
          (λ result e. ((r, omega arith, h.numbered), tt))
          (λ result reason c full positive. (
            (suc r, omega arith, numbers-snoc r s.rounds _ h.numbered refl),
            (
              omega (arith, h.corrected),
              omega (arith, h.corrected),
              classify_terminal_turn-committed config.patterns result.stop_reason result.text
                  s.committed_writes s.attempted_writes reason c,
            ),
          ))
          (λ result reason k. record {
            numbered = numbers-snoc r s.rounds _ h.numbered refl;
            corrected = omega arith;
          })
          (λ result calls. settle_round-Numbered result calls _)

  -- The audit rows of a run are numbered by their round trips, 0, 1, 2 and so on without a gap, and
  -- are at most `max_tool_roundtrips`; a run that ends unresolved used up its correction budget,
  -- which is positive, and reports no committed write.
  pub run-Audited :
      (world : World) (resume_rounds : List ToolRound)
      → ((n : ℕ) × (n ≤ config.max_tool_roundtrips)
          × (numbers (run services config world resume_rounds).1.rounds ≡ upto n))
        × Fits config.max_corrections
            (run services config world resume_rounds).1.outcome
            (run services config world resume_rounds).1
  run-Audited world resume_rounds =
      run-rule services config Numbered Audited round_trip-Numbered
        (λ r s k h. ((r, k, h.numbered), tt)) world resume_rounds
        (λ messages. record { numbered = refl; corrected = omega arith })
        ((0, omega arith, refl), tt)
