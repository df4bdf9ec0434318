-- ===== src/Orchestration/Calls/World.antt =====
-- What every dispatch keeps, the loop over the calls keeps.
use cue_api.Common.{sym, subst, Option, List, [], ◌∷◌, Bool-cases, inl, inr, leb}
use cue_api.Orchestration.Types.{ToolCall, ToolDispatchOutcome}
use cue_api.Orchestration.Calls.{
  Accounting, CallState, CallsEnd, done, asked, threw, capped, dispatched, settled, visit_call,
  visit_calls,
}
use cue_api.Orchestration.Calls.Cap.{end_state, settled-same}

module _ {World : Type 0} (dispatch : World → ToolCall → World × Option ToolDispatchOutcome)
    (accounting : Accounting) (Sound : World → Type 0)
    (keeps : (w : World) (call : ToolCall) → Sound w → Sound (dispatch w call).0) where
  settled-Sound :
      (s : CallState World) (call : ToolCall) (o : Option ToolDispatchOutcome)
      → Sound s.world
      → Sound (end_state (settled accounting s call o)).world
  settled-Sound s call o h = subst Sound (sym (settled-same accounting s call o).0) h

  visit_call-Sound :
      (s : CallState World) (call : ToolCall)
      → Sound s.world
      → Sound (end_state (visit_call dispatch accounting s call)).world
  unfolding visit_call dispatched capped
  visit_call-Sound s call h = elim (Bool-cases (accounting.is_schedule_fetch call.name)) [
    | inr e ↦ rw e (settled-Sound _ call (dispatch s.world call).1 (keeps s.world call h))
    | inl e ↦ elim (Bool-cases (leb accounting.max_schedule_fetches s.schedule_fetches)) [
      | inl c ↦ rw (e, c) h
      | inr c ↦ rw (e, c) (settled-Sound _ call (dispatch s.world call).1 (keeps s.world call h))
    ]
  ]

  pub visit_calls-Sound :
      (s : CallState World) (calls : List ToolCall)
      → Sound s.world
      → Sound (end_state (visit_calls dispatch accounting s calls)).world
  unfolding visit_calls
  visit_calls-Sound s [] h = h
  visit_calls-Sound s (call ∷ calls) h =
      go (visit_call dispatch accounting s call) (visit_call-Sound s call h)
        (λ s' k. visit_calls-Sound s' calls k)
    where
      go :
          (e : CallsEnd World)
          → Sound (end_state e).world
          → ((s' : CallState World)
              → Sound s'.world
              → Sound (end_state (visit_calls dispatch accounting s' calls)).world)
          → Sound
              (end_state (elim e [
                | done s' ↦ visit_calls dispatch accounting s' calls
                | asked s' c q ↦ asked s' c q
                | threw s' ↦ threw s'
              ])).world
      go (done s') k ih = ih s' k
      go (asked s' c q) k ih = k
      go (threw s') k ih = k
