-- ===== src/Sqlite/Rows.antt =====
-- The row of a run with its events, and the prepared statements that change it (`stmts`,
-- `renewClaimStmt`, `findOrphansStmt`, `appendEvent`, `setRunTerminal`, `tryClaim`, `shutdown` of
-- examples/hosts/sqlite/src/server.ts). A statement is one step: SQLite runs it atomically.
use wop.Prelude.{
  ℕ, ◌+◌, String, Bool, true, false, not, ◌&&◌, ◌||◌, Option, none, some, List, [], ◌∷◌, ◌++◌, ◌==◌,
  length, ltb, if◌then◌else◌,
}
use wop.Json.{Json}
use wop.Platform.{Platform}
use wop.Workflow.{RunStatus, pending, running, cancelling, is_terminal, EventType}
use wop.Memory.Run.{RunError}
use wop.Memory.Engine.{error_json}

pub record EventRow : Type 0 where
  pub run_id : String
  pub seq : ℕ
  pub type : EventType
  pub node_id : Option String
  pub data_json : Option String
  pub timestamp : String

-- A row of `runs`, and the rows of `events` with its id, in the order of `seq`.
pub record RunRow : Type 0 where
  pub run_id : String
  pub workflow_id : String
  pub status : RunStatus
  pub inputs_json : String
  pub started_at : String
  pub ended_at : Option String
  pub error_json : Option String
  pub claim_holder_id : Option String
  pub claim_expires_at : Option ℕ
  pub events : List EventRow

-- `claim_holder_id = ?`; a comparison with NULL does not hold
abbrev pub is_held_by : String → Option String → Bool
is_held_by me none = false
is_held_by me (some holder) = holder == me

-- `claim_expires_at < ?`
abbrev pub is_before : Option ℕ → ℕ → Bool
is_before none now = false
is_before (some expires) now = ltb expires now

-- `claim_holder_id IS NULL OR claim_expires_at < ?`
abbrev pub is_unclaimed : ℕ → RunRow → Bool
is_unclaimed now row =
    (elim row.claim_holder_id [ none ↦ true | some holder ↦ false ])
    || is_before row.claim_expires_at now

-- `acquireClaim`, with the number of changed rows as a truth value: `tryClaim`. Of its two calls of
-- `Date.now()` the first, `at`, gives the expiry and the second, `now`, the test.
unfoldable pub try_claim : (me : String) (claim_ttl_ms at now : ℕ) → RunRow → RunRow × Bool
try_claim me claim_ttl_ms at now row =
    if is_unclaimed now row && not (is_terminal row.status)
    then (
      record row { claim_holder_id = some me; claim_expires_at = some (at + claim_ttl_ms) },
      true,
    )
    else (row, false)

-- `renewClaimStmt`, on each heartbeat
unfoldable pub renew_claim : (me : String) (claim_ttl_ms now : ℕ) → RunRow → RunRow
renew_claim me claim_ttl_ms now row =
    if is_held_by me row.claim_holder_id
    then record row { claim_expires_at = some (now + claim_ttl_ms) }
    else row

-- `releaseClaim`
unfoldable pub release_claim : String → RunRow → RunRow
release_claim me row =
    if is_held_by me row.claim_holder_id
    then record row { claim_holder_id = none; claim_expires_at = none }
    else row

-- The statement of `shutdown`, which leaves `claim_expires_at`.
unfoldable pub release_on_shutdown : String → RunRow → RunRow
release_on_shutdown me row =
    if is_held_by me row.claim_holder_id then record row { claim_holder_id = none } else row

-- `setCancelRequested`
unfoldable pub set_cancel_requested : RunRow → RunRow
set_cancel_requested row = record row {
  status = if is_terminal row.status then row.status else cancelling;
}

-- `updateRunStatus`
unfoldable pub update_run_status : RunStatus → Option String → Option String → RunRow → RunRow
update_run_status status ended_at error row = record row {
  status = status;
  ended_at = ended_at;
  error_json = error;
}

-- `findOrphansStmt`
abbrev pub is_resumable : RunStatus → Bool
is_resumable pending = true
is_resumable running = true
is_resumable cancelling = true
is_resumable _ = false

unfoldable pub is_orphan : ℕ → RunRow → Bool
is_orphan now row = is_resumable row.status && is_unclaimed now row

module _ (p : Platform) where
  abbrev pub data_text : Option Json → Option String
  data_text none = none
  data_text (some v) = some (p.json_stringify v)

  -- `countEvents` and `insertEvent`: the number of an event is how many there are. The two statements
  -- are one step here: what another process on the same database may do between them is left out.
  unfoldable pub append_event : EventType → Option String → Option Json → RunRow → RunRow
  append_event type node_id payload row = record row {
    events =
        row.events
        ++ record {
          run_id = row.run_id;
          seq = length row.events;
          type = type;
          node_id = node_id;
          data_json = data_text payload;
          timestamp = p.event_time row.run_id (length row.events);
        }
          ∷ [];
  }

  abbrev error_text : Option RunError → Option String
  error_text none = none
  error_text (some e) = some (p.json_stringify (error_json e))

  -- `setRunTerminal`
  unfoldable pub set_run_terminal : String → RunStatus → Option RunError → RunRow → RunRow
  unfolding update_run_status release_claim
  set_run_terminal me status error row =
      release_claim me
        (update_run_status status (some (p.ended_time row.run_id)) (error_text error) row)
