-- ===== src/Session/Resume/Pairing.antt =====
-- Whether the rounds of a resumed turn are paired.
use mathlib.Core.List.{map-append}
use cue_api.Common.{
  suc, ◌≡◌, refl, sym, ap, ◌∙◌, ◌↔◌, String, List, [], ◌∷◌, ◌++◌, length, length-append, arith, All,
  All-append,
}
use cue_api.Orchestration.Types.{
  ToolCall, ToolResult, ToolRound, LoopOutcome, reply, ask, unresolved, error,
}
use cue_api.Orchestration.Calls.Pairing.{answered, ids}
use cue_api.Orchestration.ToolLoop.{Services, LoopConfig, run}
use cue_api.Orchestration.ToolLoop.Requests.{IsPaired}
use cue_api.Orchestration.ToolLoop.Suspension.{SuspendsWell, run-IsResumable}
use cue_api.Session.Resume.{synthetic_result, answer_last, append_synthetic_answer}

-- The rounds of the suspension with the answer: the earlier ones, which are paired, and the last, with
-- its calls and results for those up to the `ask_user` call. They are all paired exactly if no call
-- stands after that.
abbrev pub ResumesPaired : String → LoopOutcome → Type 0
ResumesPaired answer_label (ask suspension) =
    (earlier : List ToolRound) × (last : ToolRound) × (before : List ToolCall) × (call : ToolCall)
    × (after : List ToolCall) × (resumed : ToolRound) × (suspension.tool_rounds
        ≡ earlier ++ last ∷ [])
    × (last.tool_calls ≡ before ++ call ∷ after)
    × (suspension.ask_tool_use_id ≡ call.id)
    × (append_synthetic_answer suspension.ask_tool_use_id suspension.tool_rounds answer_label
        ≡ earlier ++ resumed ∷ [])
    × All IsPaired earlier
    × (resumed.tool_calls ≡ last.tool_calls)
    × (resumed.tool_results ≡ last.tool_results ++ synthetic_result call.id answer_label ∷ [])
    × (answered resumed.tool_results ≡ ids (before ++ call ∷ []))
    × (All IsPaired
          (append_synthetic_answer suspension.ask_tool_use_id suspension.tool_rounds answer_label)
        ↔ (after ≡ []))
ResumesPaired answer_label (reply text) = Unit {0}
ResumesPaired answer_label (unresolved n) = Unit {0}
ResumesPaired answer_label error = Unit {0}

abbrev with_result : ToolResult → ToolRound → ToolRound
with_result result round = record round { tool_results = round.tool_results ++ result ∷ [] }

answer_last-last :
    (result : ToolResult) (earlier : List ToolRound) (last : ToolRound)
    → answer_last result (earlier ++ last ∷ []) ≡ earlier ++ with_result result last ∷ []
unfolding answer_last
answer_last-last result [] last = refl
answer_last-last result (round ∷ []) last = refl
answer_last-last result (round ∷ next ∷ earlier) last =
    ap (λ l. round ∷ l) (answer_last-last result (next ∷ earlier) last)

append_synthetic_answer-last :
    (id label : String) (earlier : List ToolRound) (last : ToolRound)
    → append_synthetic_answer id (earlier ++ last ∷ []) label
      ≡ earlier ++ with_result (synthetic_result id label) last ∷ []
unfolding append_synthetic_answer
append_synthetic_answer-last id label [] last = answer_last-last _ [] last
append_synthetic_answer-last id label (round ∷ earlier) last =
    answer_last-last _ (round ∷ earlier) last

All-last :
    (earlier : List ToolRound) (last : ToolRound)
    → All IsPaired (earlier ++ last ∷ [])
    → IsPaired last
All-last [] last (p, h) = p
All-last (round ∷ earlier) last (p, h) = All-last earlier last h

length-ids : (calls : List ToolCall) → length (ids calls) ≡ length calls
length-ids [] = refl
length-ids (call ∷ calls) = ap suc (length-ids calls)

-- A list of no length.
length-nil : (calls : List ToolCall) → length calls ≡ 0 → calls ≡ []
length-nil [] h = refl
length-nil (call ∷ calls) h = absurd (omega (arith, h))

-- The results of the last round with its answer.
with_result-answered :
    (label : String) (last : ToolRound) (before : List ToolCall) (call : ToolCall)
    → answered last.tool_results ≡ ids before
    → answered (with_result (synthetic_result call.id label) last).tool_results
      ≡ ids (before ++ call ∷ [])
with_result-answered label last before call k =
    map-append _ last.tool_results _
    ∙ ap (λ l. l ++ call.id ∷ []) k
    ∙ sym (map-append _ before (call ∷ []))

-- The last round with its answer.
with_result-IsPaired :
    (label : String) (last : ToolRound) (before after : List ToolCall) (call : ToolCall)
    → last.tool_calls ≡ before ++ call ∷ after
    → answered last.tool_results ≡ ids before
    → IsPaired (with_result (synthetic_result call.id label) last) ↔ (after ≡ [])
with_result-IsPaired label last before after call c k = (
  λ p. length-nil after (
      omega (
        arith,
        ap length (sym results ∙ p ∙ calls),
        length-append (ids before) (call.id ∷ []),
        length-append (ids before) (call.id ∷ ids after),
        length-ids after,
      )),
  λ e. results ∙ sym (calls ∙ ap (λ l. ids before ++ call.id ∷ ids l) e),
)
  where
    results :
        answered (last.tool_results ++ synthetic_result call.id label ∷ [])
        ≡ ids before ++ call.id ∷ []
    results = with_result-answered label last before call k ∙ map-append _ before (call ∷ [])

    calls : ids last.tool_calls ≡ ids before ++ call.id ∷ ids after
    calls = ap ids c ∙ map-append _ before (call ∷ after)

-- Where a run from paired rounds ends with a question to the user, the rounds that it is resumed
-- with are its earlier rounds, which are paired, and its last round with the answer added: this
-- has its calls, and one result for each of them up to the `ask_user` call, in order, and no
-- further one. These rounds are all paired if no call stands after that one, and only then.
pub run-ResumesPaired :
    {World : Type 0} (services : Services World) (config : LoopConfig) (world : World)
    (resume_rounds : List ToolRound) (answer_label : String)
    → All IsPaired resume_rounds
    → ResumesPaired answer_label (run services config world resume_rounds).1.outcome
run-ResumesPaired services config world resume_rounds answer_label paired =
    go (run services config world resume_rounds).1.outcome
      (run-IsResumable services config world resume_rounds paired)
  where
    go : (outcome : LoopOutcome) → SuspendsWell outcome → ResumesPaired answer_label outcome
    go (ask suspension) (earlier, last, before, call, after, rounds, h, c, k, id) = (
      earlier,
      last,
      before,
      call,
      after,
      with_result (synthetic_result call.id answer_label) last,
      rounds,
      c,
      id,
      rw (rounds, id) (append_synthetic_answer-last call.id answer_label earlier last),
      h,
      refl,
      refl,
      with_result-answered answer_label last before call k,
      rw (rounds, id, append_synthetic_answer-last call.id answer_label earlier last)
          (
            λ p.
                (with_result-IsPaired answer_label last before after call c k).0
                  (All-last earlier _ p),
            λ e.
                All-append IsPaired earlier _ h
                  ((with_result-IsPaired answer_label last before after call c k).1 e, tt),
          ),
    )
    go (reply text) h = tt
    go (unresolved n) h = tt
    go error h = tt
