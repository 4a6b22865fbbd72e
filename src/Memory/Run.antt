-- ===== src/Memory/Run.antt =====
-- The run record, its event log and the SSE connections that listen to it (`Run`, `RunEvent`,
-- `appendEvent` and the `eventBus` of examples/hosts/in-memory/src/server.ts).
use wop.Prelude.{
  ℕ, String, Bool, true, false, not, ◌||◌, Option, List, [], ◌∷◌, ◌++◌, map, length, if◌then◌else◌,
}
use wop.Json.{Json, Num}
use wop.Platform.{Platform}
use wop.Workflow.{Node, NodeOutcome, RunStatus, EventType, is_final_type}

pub record RunEvent : Type 0 where
  pub seq : ℕ
  pub run_id : String
  pub type : EventType
  pub node_id : Option String
  -- the property `data`
  pub payload : Option Json
  pub timestamp : String

pub record RunError : Type 0 where
  pub code : String
  pub message : String

-- `aborted` is the state of `abortController.signal`.
pub record Run : Type 0 where
  pub run_id : String
  pub workflow_id : String
  pub status : RunStatus
  pub inputs : Json
  pub events : List RunEvent
  pub started_at : String
  pub ended_at : Option String
  pub error : Option RunError
  pub cancel_requested : Bool
  pub aborted : Bool

-- The response of one `GET /v1/runs/{runId}/events`: the events written to it, whether `res.end()`
-- was called, whether the client closed it, and whether `onEvent` is on the event bus. `backlog` is
-- the log as it was when the connection was opened; the host does not keep it.
pub record Connection : Type 0 where
  pub resume_after_seq : Num
  pub backlog : List RunEvent
  pub written : List RunEvent
  pub ended : Bool
  pub closed : Bool
  pub listening : Bool

-- Where the two async functions of a run stand between two turns of the event loop: in the `sleep`
-- of `executeNode`; before its continuation, the sleep over (`true` by its timer, `false` by the
-- abort); before the continuation of `runWorkflow` after `await executeNode`; or at the end. The
-- nodes are those that the loop has still to visit.
pub data Task : Type 0 where
  sleeping : Num → Node → List Node → Task
  slept : Bool → Node → List Node → Task
  returned : NodeOutcome → List Node → Task
  finished : Task

-- A run with all that the event loop holds for it.
pub record Live : Type 0 where
  pub run : Run
  pub connections : List Connection
  pub task : Task

abbrev pub is_finished : Task → Bool
is_finished finished = true
is_finished _ = false

-- `onEvent`
unfoldable pub on_event : RunEvent → Connection → Connection
on_event e c =
    if c.listening
    then record c {
      written = c.written ++ e ∷ [];
      ended = c.ended || is_final_type e.type;
      listening = not (is_final_type e.type);
    }
    else c

module _ (p : Platform) where
  unfoldable pub new_event : Run → EventType → Option String → Option Json → RunEvent
  new_event run type node_id payload = record {
    seq = length run.events;
    run_id = run.run_id;
    type = type;
    node_id = node_id;
    payload = payload;
    timestamp = p.event_time run.run_id (length run.events);
  }

  -- The push onto `run.events`, and the `emit` that calls every listener.
  unfoldable pub append_event : EventType → Option String → Option Json → Live → Live
  append_event type node_id payload l =
      let e = new_event l.run type node_id payload in
      record l {
        run = record l.run { events = l.run.events ++ e ∷ [] };
        connections = map (on_event e) l.connections;
      }
