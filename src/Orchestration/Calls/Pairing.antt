-- ===== src/Orchestration/Calls/Pairing.antt =====
-- Each tool call gets one result, in order, except those from an `ask_user` call on.
use mathlib.Core.List.{map-append}
use cue_api.Common.{
  String, ◌≡◌, refl, sym, ◌∙◌, ap, Bool, true, false, Option, none, some, List, [], ◌∷◌, ◌++◌, map,
  append_assoc, append-nil, Bool-cases, inl, inr, leb,
}
use cue_api.Orchestration.Types.{ToolCall, ToolResult, ToolDispatchOutcome, AskUser}
use cue_api.Orchestration.Calls.{
  Accounting, CallState, CallsEnd, done, asked, threw, capped, recorded, counted, dispatched,
  settled, asked_or_done, visit_call, visit_calls,
}

-- The ids of the calls that have a result.
abbrev pub answered : List ToolResult → List String
answered = map λ r. r.tool_call_id

abbrev pub ids : List ToolCall → List String
ids = map λ c. c.id

-- What the loop over the calls adds to the results: an answer to each call, or where it stops at
-- an `ask_user` call an answer to each call before it.
abbrev pub Answers : {World : Type 0} → List ToolResult → List ToolCall → CallsEnd World → Type 0
Answers old calls (done s) = answered s.results ≡ answered old ++ ids calls
Answers old calls (asked s call question) =
    (before : List ToolCall) × (after : List ToolCall) × (calls ≡ before ++ call ∷ after)
    × (answered s.results ≡ answered old ++ ids before)
Answers old calls (threw s) = Unit {0}

-- The answers to the later calls follow the answer to the first.
Answers-cons :
    {World : Type 0} (old new : List ToolResult) (call : ToolCall) (calls : List ToolCall)
    (e : CallsEnd World)
    → answered new ≡ answered old ++ call.id ∷ []
    → Answers new calls e
    → Answers old (call ∷ calls) e
Answers-cons old new call calls (done s) h k =
    k ∙ rw h (append_assoc (answered old) (call.id ∷ []) _)
Answers-cons old new call calls (asked s c q) h (before, after, e, k) = (
  call ∷ before,
  after,
  ap (λ l. call ∷ l) e,
  k ∙ rw h (append_assoc (answered old) (call.id ∷ []) _),
)
Answers-cons old new call calls (threw s) h k = tt

module _ {World : Type 0} (dispatch : World → ToolCall → World × Option ToolDispatchOutcome)
    (accounting : Accounting) where
  counted-results :
      (b : Bool) (s : CallState World) (o : ToolDispatchOutcome)
      → (counted b s o).results ≡ s.results
  unfolding counted
  counted-results true s o = refl
  counted-results false s o = refl

  recorded-answered :
      (s : CallState World) (call : ToolCall) (o : ToolDispatchOutcome)
      → answered (recorded s call o).results ≡ answered s.results ++ call.id ∷ []
  unfolding recorded
  recorded-answered s call o = map-append _ s.results _

  capped-answered :
      (s : CallState World) (call : ToolCall)
      → answered (capped s call).results ≡ answered s.results ++ call.id ∷ []
  unfolding capped
  capped-answered s call = map-append _ s.results _

  asked_or_done-Answers :
      (s : CallState World) (call : ToolCall) (o : ToolDispatchOutcome) (question : Option AskUser)
      → Answers s.results (call ∷ []) (asked_or_done accounting s call o question)
  unfolding asked_or_done
  asked_or_done-Answers s call o (some q) = ([], [], refl, sym (append-nil _))
  asked_or_done-Answers s call o none =
      ap answered (counted-results _ (recorded s call o) o) ∙ recorded-answered s call o

  settled-Answers :
      (s : CallState World) (call : ToolCall) (outcome : Option ToolDispatchOutcome)
      → Answers s.results (call ∷ []) (settled accounting s call outcome)
  unfolding settled
  settled-Answers s call none = tt
  settled-Answers s call (some o) = asked_or_done-Answers s call o o.ask_user

  dispatched-Answers :
      (s : CallState World) (call : ToolCall)
      → Answers s.results (call ∷ []) (dispatched dispatch accounting s call)
  unfolding dispatched
  dispatched-Answers s call = settled-Answers _ call (dispatch s.world call).1

  visit_call-Answers :
      (s : CallState World) (call : ToolCall)
      → Answers s.results (call ∷ []) (visit_call dispatch accounting s call)
  unfolding visit_call
  visit_call-Answers s call = elim (Bool-cases (accounting.is_schedule_fetch call.name)) [
    | inr e ↦ rw e (dispatched-Answers s call)
    | inl e ↦ elim (Bool-cases (leb accounting.max_schedule_fetches s.schedule_fetches)) [
      | inl c ↦ rw (e, c) (capped-answered s call)
      | inr c ↦ rw (e, c) (dispatched-Answers _ call)
    ]
  ]

  -- The loop over the calls of a round answers each of them once and in order; where it stops at an
  -- `ask_user` call, it has answered exactly the calls before that one.
  pub visit_calls-Answers :
      (s : CallState World) (calls : List ToolCall)
      → Answers s.results calls (visit_calls dispatch accounting s calls)
  unfolding visit_calls
  visit_calls-Answers s [] = sym (append-nil _)
  visit_calls-Answers s (call ∷ calls) =
      go (visit_call dispatch accounting s call) (visit_call-Answers s call)
        (λ s'. visit_calls-Answers s' calls)
    where
      go :
          (e : CallsEnd World)
          → Answers s.results (call ∷ []) e
          → ((s' : CallState World)
              → Answers s'.results calls (visit_calls dispatch accounting s' calls))
          → Answers s.results (call ∷ calls) (elim e [
            | done s' ↦ visit_calls dispatch accounting s' calls
            | asked s' c q ↦ asked s' c q
            | threw s' ↦ threw s'
          ])
      go (done s') h ih = Answers-cons s.results s'.results call calls _ h (ih s')
      go (asked s' c q) h ih =
          (h.0, h.1 ++ calls, ap (λ l. l ++ calls) h.2 ∙ append_assoc h.0 (c ∷ h.1) calls, h.3)
      go (threw s') h ih = tt
