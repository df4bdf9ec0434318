-- ===== src/Session/Resume/Examples.antt =====
-- A turn that asked between two fetches.
use cue_api.Common.{[]}
use cue_api.Orchestration.ToolLoop.{run}
use cue_api.Orchestration.ToolLoop.Examples.{scripted, asks_user, config, fresh}
use cue_api.Session.Resume.Pairing.{ResumesPaired, run-ResumesPaired}

run-ResumesPaired_example :
    ResumesPaired "The first" (run (scripted asks_user) config fresh []).1.outcome
run-ResumesPaired_example = run-ResumesPaired (scripted asks_user) config fresh [] "The first" tt
