-- ===== src/Tests.antt =====
-- A platform of simple functions, a workflow and requests for the tests of the children.
mod Runs
mod Requests
mod Streams
mod Profiles
mod Sqlite
mod Canaries
mod Suite
mod Tables
mod Fixtures
mod Network
mod Client
mod Refusals
mod Broadcast
mod Lockstep
mod Takeover
mod BranchFork
use Prim.Native.String
use wop.Prelude.{
  ℕ, String, ◌≡◌, ◌≢◌, ◌↔◌, ◌⊎◌, refl, Bool, true, false, Option, none, some, List, [], ◌∷◌, ◌++◌,
  map, any, filter, lookup, length, eqb, ◌==◌, eq_iff, if◌then◌else◌, maybe, arith, All, strip,
  span_segment,
}
use wop.Json.{
  Json, Num, null, bool, num, str, arr, obj, Fields, field, end, nan, nat_num, minus_one,
  find_field, to_fields, object, array, is_above,
}
use wop.Platform.{Platform}
use wop.Http.{Request, Response, check_auth, send_error, send_json}
use wop.Workflow.{
  Node, FixtureWorkflow, RunStatus, is_terminal, run_started, run_completed, run_cancelled,
  node_started, node_completed, EventType,
}
use wop.Memory.Run.{
  RunEvent, Run, Connection, Task, sleeping, finished, Live, is_finished, append_event, new_event,
  on_event,
}
use wop.Memory.Engine.{
  complete_node, cancel_node, sleep, dispatch, execute_node, finish_cancelled, finish_completed,
  run_nodes, after_node, run_found, run_workflow, resume_task, resume,
}
use wop.Memory.Turns.{
  new_run, start, turn, run_schedule, request_cancel, Turn, timer, resumption, cancel, subscribe,
  hang_up, fire_timer, connect, open_connection, disconnect,
}
use wop.Memory.Invariant.{Inv}
use wop.Memory.Invariant.Schedules.{start-Inv, run_schedule-Inv}
use wop.Memory.Plan.{schedule-log, labels, pending, expected}
use wop.Memory.Cancel.{cancel_stops, starts}
use wop.Memory.Progress.{drive_terminal, drive, turns_left}
use wop.Memory.Fairness.{fair_ends, rounds}
use wop.Memory.History.{schedule-Extends, schedule_ended, Extends}
use wop.Memory.Host.{
  IdempotencyEntry, Host, Tick, Reply, respond, handle_create_run, created, replayed, conflict,
  create_key, pruned, prune_idempotency_cache, create_run, use_idempotency_key,
  build_idempotency_cache_key,
}
use wop.Memory.Reads.{events_since, last_seq, event_json}
use wop.Memory.Cursor.{poll_cursor, above}
use wop.Memory.Idempotency.{Accepted, retry_replays}
use wop.Memory.Router.{
  Endpoint, route, endpoint, create, snapshot, events_poll, events_sse, debug_bundle, run_pattern,
  method_of, discovery_payload,
}
use wop.Memory.World.{history-RunsInv, history, RunsInv, Happening, request, run_turn}
use wop.Memory.Access.{check_auth_iff, IsBearer, endpoint-run_path, run_path}

-- A platform of simple functions.
abbrev pub digits : ℕ → String
digits n =
    if eqb n 0
    then "0"
    else if eqb n 1
    then "1"
    else if eqb n 2
    then "2"
    else if eqb n 3
    then "3"
    else "many"

abbrev pub seq_text : Option Json → String
seq_text (some (num (Num.finite false n d))) = digits n
seq_text _ = "{}"

abbrev pub stringify : Json → String
stringify (obj fs) = seq_text (find_field "seq" fs)
stringify _ = "null"

abbrev pub body_1 : String
body_1 = "{\"workflowId\":\"wf\"}"

abbrev pub body_2 : String
body_2 = "{\"workflowId\": \"wf\"}"

abbrev pub wf_fields : Fields
wf_fields = field "workflowId" (str "wf") end

abbrev pub platform : Platform
platform = record {
  json_parse = λ t.
      if t == body_1
      then some (obj wf_fields)
      else if t == body_2
      then some (obj wf_fields)
      else none;
  json_stringify = stringify;
  content_length = λ t. "2";
  sha256 = λ t. t;
  number = λ t. if t == "0" then nat_num 0 else nan;
  decimal = digits;
  trim = λ t. t;
  exotic_property = λ v k. none;
  null_read = λ k. "null";
  event_time = λ r n. "now";
  ended_time = λ r. "end";
}

abbrev pub noop_node : Node
noop_node = record { id = "n1"; type_id = "core.noop"; name = "N"; inputs = [] }

abbrev pub delay_node : Node
delay_node = record { id = "n2"; type_id = "core.delay"; name = "D"; inputs = [] }

abbrev pub flow : FixtureWorkflow
flow = record { id = "wf"; name = "W"; version = "1"; nodes = delay_node ∷ noop_node ∷ [] }

abbrev pub workflows : List (String × FixtureWorkflow)
workflows = ("wf", flow) ∷ []

abbrev pub first_run : Run
first_run = new_run "run-1" "wf" (object []) "t0"

abbrev pub host : Host
host = record { api_key = "key"; workflows = workflows; runs = []; idempotency_cache = [] }

abbrev pub post : String → Request
post body = record {
  method = some "POST";
  path = "/v1/runs";
  since = none;
  authorization = some "Bearer key";
  idempotency_key = some "k";
  last_event_id = none;
  body = body;
}

abbrev pub tick : Tick
tick = record { now = 100000000; stored_at = 100000001; iso_now = "t0"; uuid = "u" }

abbrev pub started : Live
started = start platform workflows first_run

pub started-Inv : Inv platform started
started-Inv = start-Inv platform workflows "run-1" "wf" (object []) "t0"

abbrev pub run_it : List Turn → Live
run_it ts = run_schedule platform ts started
