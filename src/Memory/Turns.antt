-- ===== src/Memory/Turns.antt =====
-- What may happen to a run between two turns of its execution: its timer, a cancel request, and the
-- opening and closing of SSE connections (`sleep`, `handleCancelRun`, `handleEventsSse` of
-- examples/hosts/in-memory/src/server.ts); and the schedules of all these.
use wop.Prelude.{
  ℕ, zero, suc, String, true, false, none, List, [], ◌∷◌, ◌++◌, filter, if◌then◌else◌,
}
use wop.Json.{Json, Num, is_above}
use wop.Platform.{Platform}
use wop.Workflow.{FixtureWorkflow, RunStatus, is_terminal}
use wop.Memory.Run.{RunEvent, Run, Connection, Task, sleeping, slept, finished, Live}
use wop.Memory.Engine.{resume, run_workflow}

abbrev pub fired : Task → Task
fired (sleeping ms node rest) = slept true node rest
fired t = t

abbrev pub aborted_task : Task → Task
aborted_task (sleeping ms node rest) = slept false node rest
aborted_task t = t

-- The callback of `setTimeout` in `sleep`.
unfoldable pub fire_timer : Live → Live
fire_timer l = record l { task = fired l.task }

-- `run.cancelRequested = true; run.abortController.abort()`, unless the run is terminal. The abort
-- calls `onAbort`, which clears the timer and rejects the promise of `sleep`.
unfoldable pub request_cancel : Live → Live
request_cancel l = if is_terminal l.run.status then l else record l {
  run = record l.run { cancel_requested = true; aborted = true };
  task = aborted_task l.task;
}

-- `handleEventsSse` after its checks: the backlog, then the end of the response or a listener.
unfoldable pub open_connection : Num → Live → Connection
open_connection resume_after_seq l = record {
  resume_after_seq = resume_after_seq;
  backlog = l.run.events;
  written = filter (λ (e : RunEvent). is_above e.seq resume_after_seq) l.run.events;
  ended = is_terminal l.run.status;
  closed = false;
  listening = if is_terminal l.run.status then false else true;
}

unfoldable pub connect : Num → Live → Live
connect resume_after_seq l = record l {
  connections = l.connections ++ open_connection resume_after_seq l ∷ [];
}

-- `req.on('close', …)` of the connection with this number
abbrev pub close : Connection → Connection
close c = record c { closed = true; listening = false }

unfoldable pub close_at : ℕ → List Connection → List Connection
close_at i [] = []
close_at zero (c ∷ cs) = close c ∷ cs
close_at (suc i) (c ∷ cs) = c ∷ close_at i cs

unfoldable pub disconnect : ℕ → Live → Live
unfolding close_at
disconnect i l = record l { connections = close_at i l.connections }

-- What the event loop may do next with a run; a schedule is a sequence of such turns.
pub data Turn : Type 0 where
  timer resumption cancel : Turn
  subscribe : Num → Turn
  hang_up : ℕ → Turn

module _ (p : Platform) where
  unfoldable pub turn : Turn → Live → Live
  turn timer l = fire_timer l
  turn resumption l = resume p l
  turn cancel l = request_cancel l
  turn (subscribe resume_after_seq) l = connect resume_after_seq l
  turn (hang_up i) l = disconnect i l

  unfoldable pub run_schedule : List Turn → Live → Live
  run_schedule [] l = l
  run_schedule (t ∷ ts) l = run_schedule ts (turn t l)

-- The run that `handleCreateRun` makes, with no listener yet.
abbrev pub new_run : String → String → Json → String → Run
new_run run_id workflow_id inputs started_at = record {
  run_id = run_id;
  workflow_id = workflow_id;
  status = RunStatus.pending;
  inputs = inputs;
  events = [];
  started_at = started_at;
  ended_at = none;
  error = none;
  cancel_requested = false;
  aborted = false;
}

-- The run before its first turn; `finished` stands for the task that there is not yet.
abbrev pub fresh : Run → Live
fresh run = record { run = run; connections = []; task = finished }

-- The call of `runWorkflow` by `handleCreateRun`: the first turn.
unfoldable pub start : Platform → List (String × FixtureWorkflow) → Run → Live
start p workflows run = run_workflow p workflows (fresh run)
