-- ===== src/Sqlite/Connections.antt =====
-- The event streams of one process of the SQLite host: `handleEventsSse` from the backlog on, and the
-- end of a connection (examples/hosts/sqlite/src/server.ts). What a connection is sent later is in
-- `append` of the execution.
use wop.Prelude.{ℕ, true, false, Option, none, some, List, [], ◌∷◌, ◌++◌, if◌then◌else◌, maybe}
use wop.Json.{Json, Num}
use wop.Platform.{Platform}
use wop.Workflow.{is_terminal}
use wop.Memory.Run.{RunEvent, Connection}
use wop.Memory.Turns.{close_at}
use wop.Sqlite.Rows.{EventRow, RunRow}
use wop.Sqlite.Engine.{Process, Execution}
use wop.Sqlite.Reads.{Parsed, parsed, raised, then_parse, parse, get_events_after}

-- What the loop over the backlog gives to `writeEvent` for a row.
abbrev pub replayed_event : EventRow → Option Json → RunEvent
replayed_event e payload = record {
  seq = e.seq;
  run_id = e.run_id;
  type = e.type;
  node_id = e.node_id;
  payload = payload;
  timestamp = e.timestamp;
}

-- The connection once the backlog is written, its listener on the event bus.
abbrev pub listening_after : Num → List RunEvent → Connection
listening_after resume_after_seq es = record {
  resume_after_seq = resume_after_seq;
  backlog = es;
  written = es;
  ended = false;
  closed = false;
  listening = true;
}

module _ (p : Platform) (me : Process) where
  abbrev pub payload_of : EventRow → Parsed (Option Json)
  payload_of e =
      maybe e.data_json (parsed none) (λ text. then_parse (parse p me text) (λ v. parsed (some v)))

  abbrev pub backlog_events : List EventRow → Parsed (List RunEvent)
  backlog_events [] = parsed []
  backlog_events (e ∷ es) = then_parse (payload_of e) (λ payload.
      then_parse (backlog_events es) (λ later. parsed (replayed_event e payload ∷ later)))

  -- The connection of a response that stays open: none where the run has ended, or where a row
  -- cannot be read and the catch of the server has ended the response.
  unfoldable pub opened : Num → RunRow → List Connection
  unfolding get_events_after
  opened resume_after_seq row =
      if is_terminal row.status
      then []
      else elim (backlog_events (get_events_after resume_after_seq row)) [
        | parsed es ↦ listening_after resume_after_seq es ∷ []
        | raised message ↦ []
      ]

  unfoldable pub connect : Num → Execution → Execution
  connect resume_after_seq x = record x {
    connections = x.connections ++ opened resume_after_seq x.row;
  }

-- `req.on('close', …)` of the connection with this number
unfoldable pub disconnect : ℕ → Execution → Execution
unfolding close_at
disconnect i x = record x { connections = close_at i x.connections }
