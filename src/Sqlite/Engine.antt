-- ===== src/Sqlite/Engine.antt =====
-- The execution of a run in one process of the SQLite host (`executeNode`, `runWorkflow`, `sleep`,
-- and the abort of `handleCancelRun` in examples/hosts/sqlite/src/server.ts), as turns of the event
-- loop. What the heartbeat and the other processes do to the row is a statement between two turns.
use Prim.Native.String
use wop.Prelude.{
  String, Bool, true, false, ◌||◌, Option, none, some, List, [], ◌∷◌, any, length, map, lookup,
  if◌then◌else◌, maybe,
}
use wop.Json.{Json, Num, nat_num, str, object}
use wop.Platform.{Platform}
use wop.Workflow.{
  Node, FixtureWorkflow, NodeOutcome, NodeKind, node_kind, RunStatus, EventType, run_started,
  run_resumed, run_completed, run_failed, run_cancelled, node_started, node_completed, node_failed,
  node_cancelled, is_terminal, resolve_input_as_number,
}
use wop.Memory.Run.{RunError, RunEvent, Connection, on_event}
use wop.Memory.Engine.{error_json}
use wop.Sqlite.Rows.{
  RunRow, EventRow, append_event, set_run_terminal, update_run_status, set_cancel_requested,
}

-- `PROCESS_ID`, the message of the error that `JSON.parse` throws, and that of a statement which
-- violates the uniqueness of a column.
pub record Process : Type 0 where
  pub id : String
  pub parse_error : String → String
  pub constraint_error : String → String

-- Where the async functions wait, as in the in-memory host; the node that was executed is kept, since
-- `runWorkflow` names its type in the error.
pub data Task : Type 0 where
  sleeping : Num → Node → List Node → Task
  slept : Bool → Node → List Node → Task
  returned : NodeOutcome → Node → List Node → Task
  finished : Task

abbrev pub is_finished : Task → Bool
is_finished finished = true
is_finished _ = false

-- The row, the local variable `inputs`, the state of the signal, whether the aborter is in
-- `runningAborters`, and the responses of this process's `handleEventsSse` for the run.
pub record Execution : Type 0 where
  pub row : RunRow
  pub inputs : Json
  pub task : Task
  pub aborted : Bool
  pub registered : Bool
  pub connections : List Connection

abbrev pub is_cancelling : RunStatus → Bool
is_cancelling RunStatus.cancelling = true
is_cancelling _ = false

abbrev pub is_run_started : EventRow → Bool
is_run_started e = elim e.type [ run_started ↦ true | _ ↦ false ]

abbrev set_task : Task → Execution → Execution
set_task t x = record x { task = t }

abbrev pub unsupported_node_type : Node → RunError
unsupported_node_type node = record {
  code = "unsupported_node_type";
  message =
      String.◌++◌ "SQLite host does not implement node type \"" (String.◌++◌ node.type_id "\".");
}

abbrev pub workflow_not_found : RunError
workflow_not_found = record { code = "workflow_not_found"; message = "Unknown workflowId." }

abbrev pub aborted_task : Task → Task
aborted_task (sleeping ms node rest) = slept false node rest
aborted_task t = t

module _ (p : Platform) (me : Process) where
  -- The event that `appendEvent` emits; where it has no node or no data, they are null.
  abbrev pub live_event : EventType → Option String → Option Json → RunRow → RunEvent
  live_event type node_id payload row = record {
    seq = length row.events;
    run_id = row.run_id;
    type = type;
    node_id = node_id;
    payload = payload;
    timestamp = p.event_time row.run_id (length row.events);
  }

  -- `appendEvent`: the insertion, and the `emit` on the event bus of this process
  abbrev pub append : EventType → Option String → Option Json → Execution → Execution
  append type node_id payload x = record x {
    row = append_event p type node_id payload x.row;
    connections = map (on_event (live_event type node_id payload x.row)) x.connections;
  }

  -- `setRunTerminal`, `return`, and the `finally` block
  abbrev pub end_run : RunStatus → Option RunError → Execution → Execution
  end_run status error x = record x {
    row = set_run_terminal p me.id status error x.row;
    task = finished;
    registered = false;
  }

  unfoldable pub finish_cancelled : Execution → Execution
  finish_cancelled x = end_run RunStatus.cancelled none (append run_cancelled none none x)

  unfoldable pub finish_completed : Execution → Execution
  finish_completed x = end_run RunStatus.completed none (append run_completed none none x)

  unfoldable pub finish_failed : RunError → Execution → Execution
  finish_failed error x =
      end_run RunStatus.failed (some error) (append run_failed none (some (error_json error)) x)

  unfoldable pub complete_node : Node → List Node → Execution → Execution
  complete_node node rest x =
      set_task (returned NodeOutcome.completed node rest)
        (append node_completed (some node.id) none x)

  unfoldable pub cancel_node : Node → List Node → Execution → Execution
  cancel_node node rest x =
      set_task (returned NodeOutcome.cancelled node rest)
        (append node_cancelled (some node.id) none x)

  unfoldable pub sleep : Num → Node → List Node → Execution → Execution
  sleep ms node rest x =
      set_task (if x.aborted then slept false node rest else sleeping ms node rest) x

  unfoldable pub dispatch : NodeKind → Node → List Node → Execution → Execution
  dispatch NodeKind.noop node rest x = complete_node node rest x
  dispatch NodeKind.delay node rest x =
      sleep (resolve_input_as_number p (lookup "delayMs" node.inputs) x.inputs (nat_num 100)) node
        rest x
  dispatch NodeKind.unsupported node rest x = set_task (returned NodeOutcome.failed node rest) (
      append node_failed (some node.id)
        (some (object (("code", str "unsupported_node_type") ∷ ("typeId", str node.type_id) ∷ [])))
        x)

  unfoldable pub execute_node : Node → List Node → Execution → Execution
  execute_node node rest x =
      if is_cancelling x.row.status
      then cancel_node node rest x
      else dispatch (node_kind node.type_id) node rest (append node_started (some node.id) none x)

  -- The loop of `runWorkflow` from its head.
  unfoldable pub run_nodes : List Node → Execution → Execution
  run_nodes [] x = if is_cancelling x.row.status then finish_cancelled x else finish_completed x
  run_nodes (node ∷ rest) x =
      if is_cancelling x.row.status then finish_cancelled x else execute_node node rest x

  -- The body of the loop after `await executeNode(…)`.
  unfoldable pub after_node : NodeOutcome → Node → List Node → Execution → Execution
  after_node NodeOutcome.failed node rest x = finish_failed (unsupported_node_type node) x
  after_node NodeOutcome.cancelled node rest x = finish_cancelled x
  after_node NodeOutcome.completed node rest x = run_nodes rest x

  -- `run.started` the first time, else `run.resumed`; the events are read before the status is set.
  unfoldable pub announce : Execution → Execution
  unfolding update_run_status
  announce x =
      let running = record x { row = update_run_status RunStatus.running none none x.row } in
      if any is_run_started x.row.events
      then append run_resumed none (some (object (("resumedBy", str me.id) ∷ []))) running
      else append run_started none none running

  abbrev pub unstarted : RunRow → Execution
  unstarted row = record {
    row = row;
    inputs = Json.null;
    task = finished;
    aborted = false;
    registered = false;
    connections = [];
  }

  -- After the lookup of the workflow. Where `JSON.parse` throws, the `catch` of the callers ends the
  -- run.
  unfoldable pub run_found : Option FixtureWorkflow → RunRow → Execution
  run_found none row = finish_failed workflow_not_found (unstarted row)
  run_found (some workflow) row =
      maybe (p.json_parse row.inputs_json)
        (finish_failed (record { code = "internal"; message = me.parse_error row.inputs_json })
          (unstarted row))
        (λ inputs.
          run_nodes workflow.nodes
            (announce (record (unstarted row) { inputs = inputs; registered = true })))

  -- The call of `runWorkflow`, up to its first `await`.
  unfoldable pub run_workflow : List (String × FixtureWorkflow) → RunRow → Execution
  run_workflow workflows row = run_found (lookup row.workflow_id workflows) row

  unfoldable pub resume_task : Task → Execution → Execution
  resume_task (slept true node rest) x = complete_node node rest x
  resume_task (slept false node rest) x = cancel_node node rest x
  resume_task (returned outcome node rest) x = after_node outcome node rest x
  resume_task _ x = x

  unfoldable pub resume : Execution → Execution
  resume x = resume_task x.task x

abbrev pub fired : Task → Task
fired (sleeping ms node rest) = slept true node rest
fired t = t

unfoldable pub fire_timer : Execution → Execution
fire_timer x = record x { task = fired x.task }

-- `handleCancelRun` of this process after its checks.
unfoldable pub request_cancel : Execution → Execution
request_cancel x = if is_terminal x.row.status then x else record x {
  row = set_cancel_requested x.row;
  aborted = x.aborted || x.registered;
  task = if x.registered then aborted_task x.task else x.task;
}
