-- ===== src/Tests/Takeover.antt =====
-- A process of the SQLite host shuts down, and another one takes its runs over.
use wop.Prelude.{String, ◌≡◌, refl, Option, none, some, List, [], ◌∷◌, ◌++◌, map}
use wop.Json.{obj}
use wop.Workflow.{EventType, run_started, run_resumed, node_started, node_completed, RunStatus}
use wop.Sqlite.Rows.{RunRow, EventRow}
use wop.Sqlite.Engine.{Process, run_workflow, unstarted}
use wop.Sqlite.Host.{Host, Clock}
use wop.Sqlite.Steps.{marks, forget}
use wop.Sqlite.Turns.{Turn, timer, resumption, beat, cancel_here, run_schedule}
use wop.Sqlite.Takeover.{takeover_repeats}
use wop.Tests.{platform, workflows, flow, wf_fields}
use wop.Tests.Sqlite.{row, process}

abbrev successor : Process
successor = record { id = "b"; parse_error = λ t. "Unexpected token"; constraint_error = λ c. c }

-- A run whose two nodes have been started and completed.
abbrev event : EventType → Option String → EventRow
event type node_id = record {
  run_id = "r1";
  seq = 0;
  type = type;
  node_id = node_id;
  data_json = none;
  timestamp = "t0";
}

abbrev written : List EventRow
written =
    event run_started none
    ∷ event node_started (some "n2")
    ∷ event node_completed (some "n2")
    ∷ event node_started (some "n1")
    ∷ []

abbrev held_row : RunRow
held_row = record row {
  status = RunStatus.running;
  claim_holder_id = some "a";
  claim_expires_at = some 5000;
  events = written;
}

-- A run of the process that shuts down, and one that a third process holds.
abbrev server : Host
server = record {
  api_key = "key";
  claim_ttl_ms = 1000;
  workflows = workflows;
  runs =
      ("r1", run_workflow platform process workflows held_row)
      ∷ ("r2", unstarted platform process (record held_row { claim_holder_id = some "c" }))
      ∷ [];
  idempotency = [];
}

abbrev clock : Clock
clock = record { at = 50; now = 51 }

abbrev turns : List Turn
turns = timer ∷ beat 60 ∷ resumption ∷ resumption ∷ cancel_here ∷ resumption ∷ []

takeover_repeats_example :
    let again =
      run_schedule platform successor 1000 turns
        (run_workflow platform successor workflows held_row) in
    let first =
      run_schedule platform successor 1000 turns
        (run_workflow platform successor workflows (record held_row { events = [] })) in
    (forget again ≡ forget first)
    × (later : List (EventType × Option String)) × (marks first ≡ (run_started, none) ∷ later)
    × (marks again
        ≡ map (λ (e : EventRow). (e.type, e.node_id)) written ++ (run_resumed, none) ∷ later)
takeover_repeats_example =
    takeover_repeats platform successor 1000 workflows flow (obj wf_fields) held_row turns refl refl
      refl
