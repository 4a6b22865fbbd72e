-- ===== src/Tests/Sqlite.antt =====
-- Claims and executions of the SQLite host, and the theorems on them at concrete inputs.
use wop.Prelude.{ℕ, String, ◌≡◌, ◌≢◌, refl, false, none, List, [], ◌∷◌, eq_iff, arith}
use wop.Workflow.{RunStatus}
use wop.Sqlite.Rows.{RunRow, try_claim, append_event, update_run_status}
use wop.Sqlite.Claims.{
  Statement, claim, heartbeat, cancel, shut_down, IsClaimed, run_statements, try_claim_excludes,
}
use wop.Sqlite.Engine.{
  Process, Execution, run_workflow, run_found, run_nodes, announce, execute_node, dispatch, sleep,
}
use wop.Sqlite.Heartbeats.{run_beats, heartbeats_keep}
use wop.Sqlite.Turns.{timer, resumption, cancel_here, elsewhere, turn, run_schedule}
use wop.Sqlite.Cancelling.{Stopping, starts, cancel_stops_execution, run_workflow_forgets_status}
use wop.Sqlite.Endings.{Inv, run_workflow-Inv}
use wop.Tests.{platform, workflows}

abbrev pub row : RunRow
row = record {
  run_id = "r1";
  workflow_id = "wf";
  status = RunStatus.pending;
  inputs_json = "{\"workflowId\":\"wf\"}";
  started_at = "t0";
  ended_at = none;
  error_json = none;
  claim_holder_id = none;
  claim_expires_at = none;
  events = [];
}

abbrev others : List Statement
others = claim "b" 100 101 ∷ heartbeat "b" 102 ∷ cancel ∷ shut_down "b" ∷ []

b_not_a : ◌≢◌ {A = String} "b" "a"
b_not_a = ground (arith, eq_iff "b" "a")

try_claim_excludes_example :
    let later = run_statements platform 1000 others (try_claim "a" 1000 50 50 row).0 in
    IsClaimed platform 1000 "a" 1050 later × ((try_claim "b" 1000 900 900 later).1 ≡ false)
unfolding try_claim
try_claim_excludes_example =
    try_claim_excludes platform 1000 "a" "b" 50 50 900 900 others row refl
      ((b_not_a, omega arith), (b_not_a, (tt, (b_not_a, tt)))) (omega arith)

-- Two heartbeats, and what the others try before each.
abbrev beats : List (List Statement × ℕ)
beats =
    (claim "b" 300 300 ∷ cancel ∷ [], 900) ∷ (shut_down "b" ∷ claim "b" 1800 1800 ∷ [], 1850) ∷ []

heartbeats_keep_example :
    let later = run_beats platform 1000 "a" beats (try_claim "a" 1000 50 50 row).0 in
    IsClaimed platform 1000 "a" 2850 later × ((try_claim "b" 1000 2800 2800 later).1 ≡ false)
unfolding try_claim
heartbeats_keep_example =
    heartbeats_keep platform 1000 "a" "b" 50 50 2800 2800 beats row refl
      (((b_not_a, omega arith), (tt, tt)), ((b_not_a, ((b_not_a, omega arith), tt)), tt))
      (omega arith)

abbrev pub process : Process
process = record { id = "a"; parse_error = λ t. "Unexpected token"; constraint_error = λ c. c }

abbrev execution : Execution
execution = run_workflow platform process workflows row

cancel_stops_execution_example : Stopping (starts execution.row.events) (
    run_schedule platform process 1000
      (timer ∷ elsewhere (heartbeat "a" 60) ∷ resumption ∷ resumption ∷ [])
      (turn platform process 1000 (elsewhere cancel) execution))
unfolding run_workflow run_found run_nodes announce execute_node dispatch sleep append_event
    update_run_status
cancel_stops_execution_example =
    cancel_stops_execution platform process 1000 (elsewhere cancel)
      (timer ∷ elsewhere (heartbeat "a" 60) ∷ resumption ∷ resumption ∷ []) execution refl refl refl
      refl refl

run_workflow_forgets_status_example :
    run_workflow platform process workflows (record row { status = RunStatus.cancelling })
    ≡ run_workflow platform process workflows row
run_workflow_forgets_status_example =
    run_workflow_forgets_status platform process workflows row RunStatus.cancelling

-- The cancel request of a client is lost when the run is taken over.
resumes_running :
    (run_workflow platform process workflows
      (record row { status = RunStatus.cancelling })).row.status
    ≡ RunStatus.running
unfolding run_workflow run_found run_nodes announce execute_node dispatch sleep append_event
    update_run_status
resumes_running = refl

run_workflow-Inv_example : Inv platform process 1000 (
    run_schedule platform process 1000
      (cancel_here ∷ elsewhere (claim "b" 70 70) ∷ resumption ∷ resumption ∷ [])
      (run_workflow platform process workflows row))
run_workflow-Inv_example =
    run_workflow-Inv platform process 1000 workflows row
      (cancel_here ∷ elsewhere (claim "b" 70 70) ∷ resumption ∷ resumption ∷ []) refl
