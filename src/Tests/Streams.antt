-- ===== src/Tests/Streams.antt =====
-- The readers of event streams, and the theorems on them applied to a run that was cancelled.
use wop.Prelude.{
  ℕ, String, ◌≡◌, refl, sym, ap, subst, append-nil, true, false, Option, none, some, List, [], ◌∷◌,
  map, All, if◌then◌else◌,
}
use wop.Json.{Json, minus_one}
use wop.Workflow.{
  RunStatus, is_terminal, EventType, run_started, run_cancelled, node_started, node_cancelled,
}
use wop.Memory.Run.{RunEvent, Connection, Live, append_event, new_event, on_event}
use wop.Memory.Engine.{
  cancel_node, sleep, dispatch, execute_node, finish_cancelled, run_nodes, after_node, run_found,
  run_workflow, resume_task, resume,
}
use wop.Memory.Turns.{
  start, turn, run_schedule, request_cancel, Turn, resumption, cancel, connect, open_connection,
}
use wop.Memory.Invariant.{Inv}
use wop.Memory.Invariant.Schedules.{run_schedule-Inv}
use wop.Memory.Cursor.{above}
use wop.Memory.Reads.{event_json}
use wop.Sse.Parser.{Text, codes, same, parse}
use wop.Sse.Chunks.{concat, parse-concat}
use wop.Sse.Frames.{Frame, stream, IsValue, is_plain, is_plain-IsValue, parse-stream}
use wop.Sse.Clients.{push_event, stream_events, answered, done}
use wop.Sse.Delivery.{sent, IsWritable, IsReadable, stream_events-connection}
use wop.Tests.{platform, digits, started, started-Inv, run_it}

abbrev pieces : List Text
pieces = codes "event: a\nda" ∷ codes "ta: x\n" ∷ codes "\ndata: y" ∷ codes "\n" ∷ []

parse-concat_example :
    parse push_event pieces ≡ parse push_event (codes "event: a\ndata: x\n\ndata: y\n" ∷ [])
parse-concat_example = parse-concat push_event pieces

plain : (t : Text) → is_plain t ≡ true → IsValue t
plain t h = is_plain-IsValue t h

abbrev two_frames : List Frame
two_frames =
    record { id = codes "0"; event = codes "a"; payload = codes "x" }
    ∷ record { id = codes "1"; event = codes "b"; payload = codes "" }
    ∷ []

parse-stream_example :
    parse push_event (stream two_frames ∷ [] ∷ [])
    ≡ record { event = codes "a"; payload = codes "x"; id = some (codes "0") }
      ∷ record { event = codes "b"; payload = []; id = some (codes "1") }
      ∷ []
unfolding push_event
parse-stream_example = parse-stream push_event (stream two_frames ∷ [] ∷ []) two_frames refl (
  record { id = plain _ refl; event = plain _ refl; payload = plain _ refl },
  (record { id = plain _ refl; event = plain _ refl; payload = plain _ refl }, tt),
)

-- The run, cancelled while its first node sleeps.
abbrev stopped : Live
stopped = run_it (Turn.subscribe minus_one ∷ cancel ∷ resumption ∷ resumption ∷ [])

stopped-Inv : Inv platform stopped
stopped-Inv =
    run_schedule-Inv platform (Turn.subscribe minus_one ∷ cancel ∷ resumption ∷ resumption ∷ [])
      started started-Inv

abbrev event_of : ℕ → EventType → Option String → RunEvent
event_of seq type node_id = record {
  seq = seq;
  run_id = "run-1";
  type = type;
  node_id = node_id;
  payload = none;
  timestamp = "now";
}

abbrev stopped_log : List RunEvent
stopped_log =
    event_of 0 run_started none
    ∷ event_of 1 node_started (some "n2")
    ∷ event_of 2 node_cancelled (some "n2")
    ∷ event_of 3 run_cancelled none
    ∷ []

-- The one connection, opened after two events.
abbrev connection : Connection
connection = record {
  resume_after_seq = minus_one;
  backlog = event_of 0 run_started none ∷ event_of 1 node_started (some "n2") ∷ [];
  written = stopped_log;
  ended = true;
  closed = false;
  listening = false;
}

stopped-runs :
    (stopped.run.events ≡ stopped_log)
    × (stopped.run.status ≡ RunStatus.cancelled)
    × (stopped.connections ≡ connection ∷ [])
unfolding start run_workflow run_found run_nodes execute_node dispatch sleep cancel_node after_node
    finish_cancelled append_event new_event run_schedule turn resume resume_task request_cancel
    connect open_connection on_event
stopped-runs = (refl, refl, refl)

-- `JSON.parse` of the texts that the platform writes for these events.
abbrev find_text : Text → List RunEvent → Option Json
find_text t [] = none
find_text t (e ∷ es) = if same t (codes (digits e.seq)) then some (event_json e) else find_text t es

abbrev json : Text → Option Json
json t = find_text t stopped_log

stopped-IsWritable : All (IsWritable platform) stopped_log
unfolding event_json
stopped-IsWritable = (
  record { id = plain _ refl; payload = plain _ refl },
  (
    record { id = plain _ refl; payload = plain _ refl },
    (
      record { id = plain _ refl; payload = plain _ refl },
      (record { id = plain _ refl; payload = plain _ refl }, tt),
    ),
  ),
)

stopped-IsReadable : All (IsReadable platform json) stopped_log
unfolding event_json
stopped-IsReadable = (refl, (refl, (refl, (refl, tt))))

abbrev stream_chunks : List Text
stream_chunks = sent platform stopped_log ∷ [] ∷ []

chunks-sent : concat stream_chunks ≡ sent platform stopped_log
chunks-sent = append-nil (sent platform stopped_log)

stream_events-connection_example :
    (stream_events platform json (answered 200 (some (stream_chunks, done)))
      ≡ record { events = map event_json (above minus_one stopped.run.events); error = none })
    × (true ≡ true)
stream_events-connection_example =
    stream_events-connection platform json stopped [] [] connection stream_chunks stopped-Inv
      (ap is_terminal stopped-runs.1) stopped-runs.2 refl refl
      (subst (All (IsWritable platform)) (sym stopped-runs.0) stopped-IsWritable)
      (subst (All (IsReadable platform json)) (sym stopped-runs.0) stopped-IsReadable) chunks-sent
