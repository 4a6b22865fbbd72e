-- ===== src/Tests/Lockstep.antt =====
-- Both hosts on one run at a concrete schedule.
use wop.Prelude.{refl, [], ◌∷◌, List}
use wop.Json.{obj, minus_one}
use wop.Memory.Turns as MemoryTurns
use wop.Sqlite.Claims.{claim, heartbeat}
use wop.Sqlite.Engine.{run_workflow}
use wop.Sqlite.Turns.{Turn, timer, resumption, cancel_here, subscribe, elsewhere, run_schedule}
use wop.Sqlite.Simulation.{Alike}
use wop.Sqlite.Lockstep.{plain_schedule, run_workflow-Alike}
use wop.Tests.{platform, workflows, wf_fields}
use wop.Tests.Sqlite.{row, process}

abbrev turns : List Turn
turns =
    elsewhere (heartbeat "a" 60)
    ∷ timer
    ∷ resumption
    ∷ subscribe minus_one
    ∷ resumption
    ∷ cancel_here
    ∷ elsewhere (claim "b" 70 70)
    ∷ resumption
    ∷ resumption
    ∷ []

run_workflow-Alike_example :
    Alike platform process
      (MemoryTurns.run_schedule platform
        (plain_schedule turns)
        (MemoryTurns.start platform workflows (MemoryTurns.new_run "r1" "wf" (obj wf_fields) "t0")))
      (run_schedule platform process 1000 turns (run_workflow platform process workflows row))
run_workflow-Alike_example =
    run_workflow-Alike platform process 1000 workflows
      (MemoryTurns.new_run "r1" "wf" (obj wf_fields) "t0") row turns
      (record {
        run_id = refl;
        workflow_id = refl;
        inputs = refl;
        unwritten = (refl, refl);
        uncancelled = (refl, refl);
        unended = refl;
      })
      refl
