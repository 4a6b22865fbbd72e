-- ===== src/Memory/Invariant.antt =====
-- The invariant of a run of the in-memory host, which every turn keeps.
pub mod Engine
pub mod Schedules
use wop.Prelude.{
  ℕ, String, ◌≡◌, refl, sym, ◌∙◌, Bool, true, false, ◌&&◌, Option, none, some, List, [], ◌∷◌, ◌++◌,
  lookup, All-append, arith, if◌then◌else◌, if_cases,
}
use wop.Json.{Json, Num}
use wop.Platform.{Platform}
use wop.Workflow.{
  Node, FixtureWorkflow, NodeOutcome, NodeKind, node_kind, RunStatus, EventType, is_terminal,
  is_final_type, run_completed, run_failed, run_cancelled, node_completed, node_cancelled,
  node_failed, node_started, run_started,
}
use wop.Memory.Run.{
  RunError, Run, Task, sleeping, slept, returned, finished, is_finished, Live, append_event,
}
use wop.Memory.Engine.{
  complete_node, cancel_node, sleep, dispatch, execute_node, finish_cancelled, finish_completed,
  finish_failed, run_nodes, after_node, run_found, run_workflow, resume_task, resume,
}
use wop.Memory.Turns.{
  fire_timer, request_cancel, connect, disconnect, open_connection, Turn, timer, resumption, cancel,
  subscribe, hang_up, turn, run_schedule, start, new_run,
}
use wop.Memory.Log.{
  LogInv, is_closed, append_event-LogInv, append_event-LogInv_open, open_connection-Follows,
  close_at-Follows,
}

-- the event that a terminal status goes with
abbrev pub closing : RunStatus → Option EventType
closing RunStatus.completed = some run_completed
closing RunStatus.failed = some run_failed
closing RunStatus.cancelled = some run_cancelled
closing _ = none

abbrev pub is_sleeping : Task → Bool
is_sleeping (sleeping ms node rest) = true
is_sleeping _ = false

module _ (p : Platform) where
  pub record Inv (l : Live) : Type 0 where
    -- the log, with the connections that follow it, is closed exactly by the event of the status
    pub log : LogInv (closing l.run.status) l.run.run_id l.run.events l.connections
    -- the status is terminal exactly when the execution has ended
    pub done : is_finished l.task ≡ is_terminal l.run.status
    pub ended :
        l.run.ended_at
        ≡ (if is_terminal l.run.status then some (p.ended_time l.run.run_id) else none)
    pub signal : l.run.aborted ≡ l.run.cancel_requested
    -- no delay goes on after a cancel request
    pub awake : is_sleeping l.task ≡ true → l.run.cancel_requested ≡ false

  -- What holds in the middle of a turn.
  record Busy (l : Live) : Type 0 where
    log : LogInv none l.run.run_id l.run.events l.connections
    active : is_terminal l.run.status ≡ false
    ended : l.run.ended_at ≡ none
    signal : l.run.aborted ≡ l.run.cancel_requested

  closing_of_active : (s : RunStatus) → is_terminal s ≡ false → closing s ≡ none
  closing_of_active s h = ground arith

  -- A turn that ends at an `await` restores the invariant.
  suspend-Inv :
      (l : Live) (t : Task)
      → Busy l
      → is_finished t ≡ false
      → (is_sleeping t ≡ true → l.run.cancel_requested ≡ false)
      → Inv (record l { task = t })
  suspend-Inv l t b e awake = record {
    log = rw (closing_of_active l.run.status b.active) b.log;
    done = ground (arith, b.active);
    ended = ground (arith, b.active, b.ended);
    signal = b.signal;
    awake = awake;
  }

  append-Busy :
      (t : EventType) (n : Option String) (d : Option Json) (l : Live)
      → is_final_type t ≡ false
      → Busy l
      → Busy (append_event p t n d l)
  unfolding append_event
  append-Busy t n d l e b = record {
    log = append_event-LogInv_open p t n d l e b.log;
    active = b.active;
    ended = b.ended;
    signal = b.signal;
  }

  -- A run that has not ended is ready for its next turn.
  Busy-of_Inv : (l : Live) → Inv l → is_finished l.task ≡ false → Busy l
  Busy-of_Inv l h open_end =
      let active : is_terminal l.run.status ≡ false = sym h.done ∙ open_end in
      record {
        log = rw (closing_of_active l.run.status active) at h.log;
        active = active;
        ended = ground (arith, h.ended);
        signal = h.signal;
      }
