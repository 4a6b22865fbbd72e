-- ===== src/Sqlite/Takeover.antt =====
-- A process that takes over a run does all its nodes again: `runWorkflow` of
-- examples/hosts/sqlite/src/server.ts on the row of a run that was started before.
use wop.Prelude.{
  ℕ, String, ◌≡◌, refl, sym, ap, ◌∙◌, true, Option, none, some, List, [], ◌∷◌, ◌++◌, map,
  map-append, append_assoc, any, lookup, arith,
}
use wop.Json.{Json, str, object}
use wop.Platform.{Platform}
use wop.Workflow.{FixtureWorkflow, RunStatus, EventType, run_started, run_resumed}
use wop.Sqlite.Rows.{
  RunRow, EventRow, append_event, update_run_status, set_run_terminal, release_claim, try_claim,
  renew_claim, release_on_shutdown, set_cancel_requested,
}
use wop.Sqlite.Claims.{
  Statement, claim, heartbeat, finish, shut_down, cancel, start_run, run_statement,
}
use wop.Sqlite.Claims
use wop.Sqlite.Engine
use wop.Sqlite.Engine.{Process, Execution, is_run_started, unstarted}
use wop.Sqlite.Turns.{
  Turn, timer, resumption, cancel_here, subscribe, hang_up, beat, elsewhere, turn, run_schedule,
}
use wop.Sqlite.Connections.{connect, disconnect}
use wop.Sqlite.Steps.{
  marks, forget, Steps, then-Steps, if-Steps, still-Steps, run_nodes-Steps, resume_task-Steps,
}

module _ (p : Platform) (me : Process) (ttl : ℕ) where
  resume-Steps : Steps (Engine.resume p me)
  unfolding Engine.resume
  resume-Steps = record {
    state = λ x. (resume_task-Steps p me x.task).state x;
    log = λ x. (resume_task-Steps p me x.task).log x;
  }

  statement-Steps : (s : Statement) → Steps (turn p me ttl (elsewhere s))
  unfolding turn run_statement try_claim renew_claim release_on_shutdown set_cancel_requested
      update_run_status set_run_terminal release_claim append_event
  statement-Steps (claim who at now) = still-Steps _ (λ x. ground arith) (λ x. ground arith)
  statement-Steps (heartbeat who now) = still-Steps _ (λ x. ground arith) (λ x. ground arith)
  statement-Steps (finish who status error) = still-Steps _ (λ x. ground arith) (λ x. ground arith)
  statement-Steps (shut_down who) = still-Steps _ (λ x. ground arith) (λ x. ground arith)
  statement-Steps cancel = still-Steps _ (λ x. refl) (λ x. refl)
  statement-Steps start_run = still-Steps _ (λ x. refl) (λ x. refl)
  statement-Steps (Claims.append type node_id payload) = record {
    state = λ x. refl;
    log = λ x. map-append (λ (e : EventRow). (e.type, e.node_id)) x.row.events _;
  }

  turn-Steps : (t : Turn) → Steps (turn p me ttl t)
  unfolding turn Engine.fire_timer Engine.request_cancel set_cancel_requested connect disconnect
  turn-Steps timer = still-Steps _ (λ x. refl) (λ x. refl)
  turn-Steps resumption = resume-Steps
  turn-Steps cancel_here = still-Steps _ (λ x. ground arith) (λ x. ground arith)
  turn-Steps (subscribe n) = still-Steps _ (λ x. refl) (λ x. refl)
  turn-Steps (hang_up i) = still-Steps _ (λ x. refl) (λ x. refl)
  turn-Steps (beat now) =
      if-Steps (λ x. x.registered) _ _ (λ x. refl) (statement-Steps (heartbeat me.id now))
        (still-Steps _ (λ x. refl) (λ x. refl))
  turn-Steps (elsewhere s) = statement-Steps s

  schedule-Steps : (ts : List Turn) → Steps (run_schedule p me ttl ts)
  unfolding run_schedule
  schedule-Steps [] = still-Steps _ (λ x. refl) (λ x. refl)
  schedule-Steps (t ∷ ts) =
      then-Steps (turn p me ttl t) (run_schedule p me ttl ts) (turn-Steps t) (schedule-Steps ts)

  -- The execution of a run as it comes to its first node.
  abbrev at_loop : RunRow → Json → Execution
  at_loop row inputs = record (unstarted p me row) {
    row = update_run_status RunStatus.running none none row;
    inputs = inputs;
    registered = true;
  }

  -- Of a run that was started before, whose workflow is known and whose inputs parse: under any turns
  -- and statements, the process that takes it over comes where it would be with the run as a new one (but
  -- for its events and connections), and it appends, to the events that there are, `run.resumed` and then
  -- events of the same types and nodes as a new run gets after its `run.started`, whichever nodes the
  -- earlier events completed.
  pub takeover_repeats :
      (workflows : List (String × FixtureWorkflow)) (workflow : FixtureWorkflow) (inputs : Json)
      (row : RunRow) (ts : List Turn)
      → lookup row.workflow_id workflows ≡ some workflow
      → p.json_parse row.inputs_json ≡ some inputs
      → any is_run_started row.events ≡ true
      → let again = run_schedule p me ttl ts (Engine.run_workflow p me workflows row) in
        let first =
          run_schedule p me ttl ts
            (Engine.run_workflow p me workflows (record row { events = [] })) in
        (forget again ≡ forget first)
        × (later : List (EventType × Option String)) × (marks first ≡ (run_started, none) ∷ later)
        × (marks again
            ≡ map (λ (e : EventRow). (e.type, e.node_id)) row.events ++ (run_resumed, none) ∷ later)
  unfolding Engine.run_workflow Engine.run_found Engine.announce append_event update_run_status
  takeover_repeats workflows workflow inputs row ts known parsed started =
      let resumed_by = some (object (("resumedBy", str me.id) ∷ [])) in
      let x = Engine.append p me run_resumed none resumed_by (at_loop row inputs) in
      let y =
        Engine.append p me run_started none none (at_loop (record row { events = [] }) inputs) in
      let steps =
        then-Steps (Engine.run_nodes p me workflow.nodes) (run_schedule p me ttl ts)
          (run_nodes-Steps p me workflow.nodes) (schedule-Steps ts) in
      let later =
        marks (run_schedule p me ttl ts (Engine.run_nodes p me workflow.nodes (forget x))) in
      let labels = map (λ (e : EventRow). (e.type, e.node_id)) in
      rw (known, parsed, started)
        (
          steps.state x ∙ sym (steps.state y),
          later,
          steps.log y,
          steps.log x
              ∙ ap (λ l. l ++ later)
                  (map-append (λ (e : EventRow). (e.type, e.node_id)) row.events _)
              ∙ append_assoc (labels row.events) ((run_resumed, none) ∷ []) later,
        )
