-- ===== src/Workflow.antt =====
-- What both reference hosts declare alike (examples/hosts/in-memory/src/server.ts and
-- examples/hosts/sqlite/src/server.ts): fixture workflows, run statuses, event types, node outcomes,
-- and the input of a delay node.
use wop.Prelude.{String, Bool, true, false, Option, none, some, List, ◌==◌, if◌then◌else◌}
use wop.Json.{Json, num, str, obj, Num, find_field}
use wop.Platform.{Platform}

pub record Node : Type 0 where
  pub id : String
  pub type_id : String
  pub name : String
  pub inputs : List (String × Json)

-- `variables` and `settings` are read by neither host.
pub record FixtureWorkflow : Type 0 where
  pub id : String
  pub name : String
  pub version : String
  pub nodes : List Node

-- `cancelling` is a status of the SQLite host only.
pub data RunStatus : Type 0 where
  pending running cancelling completed failed cancelled waiting_approval : RunStatus

abbrev pub status_text : RunStatus → String
status_text pending = "pending"
status_text running = "running"
status_text cancelling = "cancelling"
status_text completed = "completed"
status_text failed = "failed"
status_text cancelled = "cancelled"
status_text waiting_approval = "waiting-approval"

-- `status === 'completed' || status === 'failed' || status === 'cancelled'`
abbrev pub is_terminal : RunStatus → Bool
is_terminal completed = true
is_terminal failed = true
is_terminal cancelled = true
is_terminal _ = false

-- The values that the hosts give to `RunEvent.type`; `run_resumed` is the SQLite host's.
pub data EventType : Type 0 where
  run_started run_resumed run_completed run_failed run_cancelled : EventType
  node_started node_completed node_failed node_cancelled : EventType

abbrev pub type_text : EventType → String
type_text run_started = "run.started"
type_text run_resumed = "run.resumed"
type_text run_completed = "run.completed"
type_text run_failed = "run.failed"
type_text run_cancelled = "run.cancelled"
type_text node_started = "node.started"
type_text node_completed = "node.completed"
type_text node_failed = "node.failed"
type_text node_cancelled = "node.cancelled"

-- the test of the SSE listeners on `event.type`
abbrev pub is_final_type : EventType → Bool
is_final_type run_completed = true
is_final_type run_failed = true
is_final_type run_cancelled = true
is_final_type _ = false

pub data NodeOutcome : Type 0 where
  completed cancelled failed : NodeOutcome

-- The `switch (node.typeId)` of `executeNode`.
pub data NodeKind : Type 0 where
  noop delay unsupported : NodeKind

abbrev pub node_kind : String → NodeKind
node_kind t = if t == "core.noop" then noop else if t == "core.delay" then delay else unsupported

module _ (p : Platform) where
  abbrev read : Json → Json → Option Json
  read (obj fs) (str k) = find_field k fs
  read value key = p.exotic_property value key

  abbrev number_or : Option Json → Num → Num
  number_or (some (num x)) fallback = x
  number_or _ fallback = fallback

  abbrev variable : Option Json → Json → Num → Num
  variable none variables fallback = fallback
  variable (some name) variables fallback = number_or (read variables name) fallback

  abbrev names_variable : Option Json → Bool
  names_variable (some (str t)) = t == "variable"
  names_variable _ = false

  -- `declared` is `none` where the input is `undefined`.
  unfoldable pub resolve_input_as_number : Option Json → Json → Num → Num
  resolve_input_as_number (some (obj fs)) variables fallback =
      if names_variable (find_field "type" fs)
      then variable (find_field "variableName" fs) variables fallback
      else fallback
  resolve_input_as_number declared variables fallback = number_or declared fallback
