-- ===== src/Orchestration/Calls/Cap.antt =====
-- The cap on schedule fetches, seen from the world.
use cue_api.Common.{ℕ, ◌+◌, ◌≤◌, ◌≡◌, Option, List, [], ◌∷◌, arith, if◌then◌else◌}
use cue_api.Orchestration.Types.{ToolCall, ToolDispatchOutcome}
use cue_api.Orchestration.Calls.{
  Accounting, CallState, CallsEnd, done, asked, threw, capped, recorded, counted, dispatched,
  settled, asked_or_done, visit_call, visit_calls,
}

-- The state in which the loop over the calls ends.
abbrev pub end_state : {World : Type 0} → CallsEnd World → CallState World
end_state (done s) = s
end_state (asked s call question) = s
end_state (threw s) = s

module _ {World : Type 0} (accounting : Accounting) where
  -- Settling an outcome touches neither the world nor the count of fetches.
  pub settled-same :
      (s : CallState World) (call : ToolCall) (o : Option ToolDispatchOutcome)
      → ((end_state (settled accounting s call o)).world ≡ s.world)
        × ((end_state (settled accounting s call o)).schedule_fetches ≡ s.schedule_fetches)
  unfolding settled asked_or_done counted recorded
  settled-same s call o = ground arith

module _ {World : Type 0} (dispatch : World → ToolCall → World × Option ToolDispatchOutcome)
    (accounting : Accounting) (fetched : World → ℕ)
    (counts : (w : World) (call : ToolCall)
      → fetched (dispatch w call).0
        ≤ fetched w + (if accounting.is_schedule_fetch call.name then 1 else 0)) where
  open accounting use {is_schedule_fetch, is_write, max_schedule_fetches}

  -- From state s to state s' the world saw no more fetches than were counted, and no more are
  -- counted than the cap.
  abbrev pub Within : CallState World → CallState World → Type 0
  Within s s' =
      (fetched s'.world + s.schedule_fetches ≤ fetched s.world + s'.schedule_fetches)
      × (s'.schedule_fetches ≤ max_schedule_fetches)

  dispatched-fetches :
      (s : CallState World) (call : ToolCall)
      → ((end_state (dispatched dispatch accounting s call)).world ≡ (dispatch s.world call).0)
        × ((end_state (dispatched dispatch accounting s call)).schedule_fetches
            ≡ s.schedule_fetches)
  unfolding dispatched
  dispatched-fetches s call = settled-same accounting _ call (dispatch s.world call).1

  visit_call-Within :
      (s : CallState World) (call : ToolCall)
      → s.schedule_fetches ≤ max_schedule_fetches
      → Within s (end_state (visit_call dispatch accounting s call))
  unfolding visit_call capped
  visit_call-Within s call h = ground (
    arith,
    counts s.world call,
    dispatched-fetches s call,
    dispatched-fetches (record s { schedule_fetches = s.schedule_fetches + 1 }) call,
  )

  -- A loop over calls that starts with no more fetches counted than the cap lets the world see no
  -- more fetches than it counts, and counts no more than the cap, however it ends.
  pub visit_calls-Within :
      (s : CallState World) (calls : List ToolCall)
      → s.schedule_fetches ≤ max_schedule_fetches
      → Within s (end_state (visit_calls dispatch accounting s calls))
  unfolding visit_calls
  visit_calls-Within s [] h = omega arith
  visit_calls-Within s (call ∷ calls) h =
      go (visit_call dispatch accounting s call) (visit_call-Within s call h)
        (λ s' k. visit_calls-Within s' calls k)
    where
      go :
          (e : CallsEnd World)
          → Within s (end_state e)
          → ((s' : CallState World)
              → s'.schedule_fetches ≤ max_schedule_fetches
              → Within s' (end_state (visit_calls dispatch accounting s' calls)))
          → Within s (
              end_state (elim e [
                | done s' ↦ visit_calls dispatch accounting s' calls
                | asked s' c q ↦ asked s' c q
                | threw s' ↦ threw s'
              ]))
      go (done s') k ih = omega (arith, ih s' k.1)
      go (asked s' c q) k ih = k
      go (threw s') k ih = k
