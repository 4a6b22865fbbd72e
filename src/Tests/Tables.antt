-- ===== src/Tests/Tables.antt =====
-- The tables of the SQLite host, and the theorems on them at concrete inputs.
use wop.Prelude.{
  Option, true, false, map, append-nil, All, if◌then◌else◌, ◌≡◌, refl, none, some, [], ◌∷◌,
}
use wop.Json.{Json, null}
use wop.Http.{Request, check_auth}
use wop.Memory.Run.{Live, finished}
use wop.Memory.Host
use wop.Memory.Reads
use wop.Memory.Router.{Endpoint, endpoint}
use wop.Sqlite.Rows.{RunRow, EventRow}
use wop.Sqlite.Engine.{Execution, Process, unstarted}
use wop.Sqlite.Turns.{timer, resumption}
use wop.Sqlite.Host.{Host, Clock, respond, handle_create_run}
use wop.Sqlite.Reads.{event_value, get_events_after, handle_get_run}
use wop.Sse.Parser.{Text, codes, same}
use wop.Sse.Chunks.{concat}
use wop.Sse.Frames.{IsValue, is_plain, is_plain-IsValue}
use wop.Sse.Clients.{stream_events, answered, done}
use wop.Sqlite.Streaming.{IsSent, shown, text_of, ended_stream}
use wop.Memory.Router.{resume_after}
use wop.Sqlite.Router.{handle_events_sse, handle_cancel_run}
use wop.Sqlite.Tables.{Keyed}
use wop.Sqlite.World.{Life, lives, request, run_turn}
use wop.Sqlite.Lifetimes.{lives-Keyed}
use wop.Sqlite.Agreement.{Agree, hosts_agree}
use wop.Tests.{platform, workflows, post, tick, body_1, first_run, wf_fields}
use wop.Tests.Sqlite.{row, process}
use wop.Workflow.{RunStatus, run_started, run_cancelled}

abbrev second_process : Process
second_process = record {
  id = "b";
  parse_error = λ t. "Unexpected token";
  constraint_error = λ c. c;
}

abbrev own_row : RunRow
own_row = record row { run_id = "run-1"; claim_holder_id = some "b"; claim_expires_at = some 40 }

abbrev fresh_row : RunRow
fresh_row = record own_row { claim_expires_at = some 900 }

abbrev server : Host
server = record {
  api_key = "key";
  claim_ttl_ms = 1000;
  workflows = workflows;
  runs =
      ("run-1", unstarted platform process own_row)
      ∷ ("run-2", unstarted platform process (record fresh_row { run_id = "run-2" }))
      ∷ [];
  idempotency = [];
}

abbrev clock : Clock
clock = record { at = 50; now = 51 }

-- What another process finds in the tables later.
abbrev elsewhere : Host
elsewhere = record server {
  runs = [];
  idempotency = (handle_create_run platform process tick clock (post body_1) server).0.idempotency;
}

abbrev stranger : Request
stranger = record (post body_1) { authorization = none }

server-Keyed : Keyed server
server-Keyed = ((refl, (refl, tt)), ((refl, tt), ((refl, tt), tt)), tt)

-- A process that takes over a run and creates another, and its successor.
abbrev first_life : Life
first_life = record {
  process = process;
  api_key = "key";
  claim_ttl_ms = 1000;
  workflows = workflows;
  now = 50;
  clocks = λ id. clock;
  happenings =
      request tick clock (post body_1) ∷ run_turn "run-1" timer ∷ run_turn "run-1" resumption ∷ [];
  ends_by_signal = true;
}

abbrev second_life : Life
second_life = record first_life { process = second_process; happenings = []; now = 51 }

lives-Keyed_example : Keyed (lives platform (first_life ∷ second_life ∷ []) server)
lives-Keyed_example = lives-Keyed platform (first_life ∷ second_life ∷ []) server server-Keyed

abbrev twin : Live
twin = record {
  run = record first_run { inputs = Json.obj wf_fields };
  connections = [];
  task = finished;
}

abbrev memory : wop.Memory.Host.Host
memory = record {
  api_key = "key";
  workflows = workflows;
  runs = ("run-1", twin) ∷ [];
  idempotency_cache = [];
}

server-Agree : Agree platform server memory "run-1"
server-Agree = record {
  key = refl;
  run = record {
    run_id = refl;
    workflow_id = refl;
    status = refl;
    started_at = refl;
    ended_at = refl;
    inputs = refl;
    error = tt;
  };
}

hosts_agree_example :
    (handle_get_run platform process (post body_1) "run-1" server
      ≡ respond (wop.Memory.Reads.handle_get_run platform (post body_1) "run-1" memory))
    × ((handle_cancel_run platform process (post body_1) "run-1" server).1
        ≡ respond (wop.Memory.Router.handle_cancel_run platform (post body_1) "run-1" memory).1)
hosts_agree_example = hosts_agree platform process server memory (post body_1) "run-1" server-Agree

abbrev first_event : EventRow
first_event = record {
  run_id = "run-1";
  seq = 0;
  type = run_started;
  node_id = none;
  data_json = none;
  timestamp = "t0";
}

abbrev last_event : EventRow
last_event = record first_event { seq = 1; type = run_cancelled }

-- A run that has ended.
abbrev over : Execution
over =
    unstarted platform process
      (record own_row { status = RunStatus.cancelled; events = first_event ∷ last_event ∷ [] })

abbrev closing : Host
closing = record server { runs = ("run-1", over) ∷ [] }

abbrev json : Text → Option Json
json t =
    if same t (codes "0")
    then some (event_value platform process first_event null)
    else some (event_value platform process last_event null)

abbrev resuming : Request
resuming = record (post body_1) { last_event_id = some "0" }

plain : (t : Text) → is_plain t ≡ true → IsValue t
plain t h = is_plain-IsValue t h

over-IsSent : All (IsSent platform process json) over.row.events
over-IsSent = (
  record { reads = refl; id = plain _ refl; payload = plain _ refl; back = refl },
  (record { reads = refl; id = plain _ refl; payload = plain _ refl; back = refl }, tt),
)

ended_stream_example :
    let es = get_events_after (resume_after platform resuming.last_event_id) over.row in
    let frames = map (text_of platform process json) es in
    ((handle_events_sse platform process resuming "run-1" closing).1
      ≡ wop.Sqlite.Host.Reply.stream
          (("Content-Type", "text/event-stream")
            ∷ ("Cache-Control", "no-cache")
            ∷ ("Connection", "keep-alive")
            ∷ [])
          frames
          false)
    × (stream_events platform json (answered 200 (some (concat (map codes frames) ∷ [], done)))
        ≡ record { events = map (shown platform process json) es; error = none })
unfolding check_auth
ended_stream_example =
    let es = get_events_after (resume_after platform resuming.last_event_id) over.row in
    ended_stream platform process json resuming "run-1" closing over
      (concat (map codes (map (text_of platform process json) es)) ∷ []) refl refl refl over-IsSent
      (append-nil (concat (map codes (map (text_of platform process json) es))))
