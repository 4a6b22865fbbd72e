-- ===== src/Sqlite/Turns.antt =====
-- What may happen between two turns of a run in the SQLite host: its timers, a cancel request to this
-- process, the opening and closing of its event streams, and statements of other processes
-- (examples/hosts/sqlite/src/server.ts).
use wop.Prelude.{ℕ, Bool, true, false, List, [], ◌∷◌, if◌then◌else◌}
use wop.Json.{Num}
use wop.Platform.{Platform}
use wop.Sqlite.Claims.{Statement, claim, heartbeat, shut_down, cancel, run_statement}
use wop.Sqlite.Engine.{Process, Execution, fire_timer, resume, request_cancel}
use wop.Sqlite.Connections.{connect, disconnect}

pub data Turn : Type 0 where
  timer resumption cancel_here : Turn
  subscribe : Num → Turn
  hang_up : ℕ → Turn
  beat : (now : ℕ) → Turn
  elsewhere : Statement → Turn

-- A statement that another process may run while this one executes the run: a claim, a heartbeat, a
-- shutdown, or the cancel request of a client. The others are run by an execution of the run only.
abbrev pub is_quiet : Statement → Bool
is_quiet (claim who at now) = true
is_quiet (heartbeat who now) = true
is_quiet (shut_down who) = true
is_quiet cancel = true
is_quiet _ = false

abbrev pub is_allowed : Turn → Bool
is_allowed (elsewhere s) = is_quiet s
is_allowed _ = true

module _ (p : Platform) (me : Process) (claim_ttl_ms : ℕ) where
  -- The callback of the interval that `startHeartbeat` sets and `stopHeartbeat` clears: it is in
  -- `runningHeartbeats` while the aborter is in `runningAborters`.
  abbrev pub beaten : ℕ → Execution → Execution
  beaten now x =
      if x.registered
      then record x { row = run_statement p claim_ttl_ms (heartbeat me.id now) x.row }
      else x

  unfoldable pub turn : Turn → Execution → Execution
  turn timer x = fire_timer x
  turn resumption x = resume p me x
  turn cancel_here x = request_cancel x
  turn (subscribe resume_after_seq) x = connect p me resume_after_seq x
  turn (hang_up i) x = disconnect i x
  turn (beat now) x = beaten now x
  turn (elsewhere s) x = record x { row = run_statement p claim_ttl_ms s x.row }

  unfoldable pub run_schedule : List Turn → Execution → Execution
  run_schedule [] x = x
  run_schedule (t ∷ ts) x = run_schedule ts (turn t x)
