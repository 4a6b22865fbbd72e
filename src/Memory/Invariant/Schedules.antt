-- ===== src/Memory/Invariant/Schedules.antt =====
-- Every turn and every schedule keeps the invariant, and a new run has it.
use wop.Prelude.{
  ℕ, String, ◌≡◌, refl, true, false, List, [], ◌∷◌, lookup, All-append, arith, if_cases,
}
use wop.Json.{Json, Num}
use wop.Platform.{Platform}
use wop.Workflow.{FixtureWorkflow, RunStatus, is_terminal}
use wop.Memory.Run.{Task, sleeping, slept, returned, finished, Live}
use wop.Memory.Engine.{run_workflow, resume_task, resume}
use wop.Memory.Turns.{
  fire_timer, request_cancel, connect, disconnect, open_connection, Turn, timer, resumption, cancel,
  subscribe, hang_up, turn, run_schedule, start, new_run,
}
use wop.Memory.Log.{is_closed, open_connection-Follows, close_at-Follows}
use wop.Memory.Invariant.{Inv, Busy, closing, Busy-of_Inv}
use wop.Memory.Invariant.Engine.{complete_node-Inv, cancel_node-Inv, after_node-Inv, run_found-Inv}

module _ (p : Platform) where
  resume_task-Inv : (t : Task) (l : Live) → l.task ≡ t → Inv p l → Inv p (resume_task p t l)
  unfolding resume_task
  resume_task-Inv (sleeping ms n r) l e h = h
  resume_task-Inv (slept true n r) l e h = complete_node-Inv p n r l (Busy-of_Inv p l h (rw e))
  resume_task-Inv (slept false n r) l e h = cancel_node-Inv p n r l (Busy-of_Inv p l h (rw e))
  resume_task-Inv (returned o r) l e h = after_node-Inv p o r l (Busy-of_Inv p l h (rw e))
  resume_task-Inv finished l e h = h

  fire_timer-Inv : (l : Live) → Inv p l → Inv p (fire_timer l)
  unfolding fire_timer
  fire_timer-Inv l h = record {
    log = h.log;
    done = ground (arith, h.done);
    ended = h.ended;
    signal = h.signal;
    awake = λ e. ground (arith, h.awake);
  }

  request_cancel-Inv : (l : Live) → Inv p l → Inv p (request_cancel l)
  unfolding request_cancel
  request_cancel-Inv l h =
      if_cases (Inv p) (is_terminal l.run.status) _ _ (λ over. h)
        (λ going. record {
          log = h.log;
          done = ground (arith, h.done);
          ended = h.ended;
          signal = refl;
          awake = λ e. ground arith;
        })

  is_closed-closing : (s : RunStatus) → is_closed (closing s) ≡ is_terminal s
  is_closed-closing s = ground arith

  connect-Inv : (x : Num) (l : Live) → Inv p l → Inv p (connect x l)
  unfolding connect
  connect-Inv x l h = record {
    log = record {
      numbered = h.log.numbered;
      owned = h.log.owned;
      closed_by = h.log.closed_by;
      followed =
          All-append _ l.connections (open_connection x l ∷ []) h.log.followed
            (open_connection-Follows x l _ (is_closed-closing l.run.status), tt);
    };
    done = h.done;
    ended = h.ended;
    signal = h.signal;
    awake = h.awake;
  }

  disconnect-Inv : (i : ℕ) (l : Live) → Inv p l → Inv p (disconnect i l)
  unfolding disconnect
  disconnect-Inv i l h = record {
    log = record {
      numbered = h.log.numbered;
      owned = h.log.owned;
      closed_by = h.log.closed_by;
      followed = close_at-Follows i _ l.run.events l.connections h.log.followed;
    };
    done = h.done;
    ended = h.ended;
    signal = h.signal;
    awake = h.awake;
  }

  pub turn-Inv : (t : Turn) (l : Live) → Inv p l → Inv p (turn p t l)
  unfolding turn resume
  turn-Inv timer l h = fire_timer-Inv l h
  turn-Inv resumption l h = resume_task-Inv l.task l refl h
  turn-Inv cancel l h = request_cancel-Inv l h
  turn-Inv (subscribe x) l h = connect-Inv x l h
  turn-Inv (hang_up i) l h = disconnect-Inv i l h

  pub run_schedule-Inv : (ts : List Turn) (l : Live) → Inv p l → Inv p (run_schedule p ts l)
  unfolding run_schedule
  run_schedule-Inv [] l h = h
  run_schedule-Inv (t ∷ ts) l h = run_schedule-Inv ts (turn p t l) (turn-Inv t l h)

  module _ (ws : List (String × FixtureWorkflow)) (id w : String) (j : Json) (at : String) where
    fresh_Busy : Busy p (record { run = new_run id w j at; connections = []; task = finished })
    fresh_Busy = record {
      log = record { numbered = tt; owned = tt; closed_by = refl; followed = tt };
      active = refl;
      ended = refl;
      signal = refl;
    }

    -- A run that `handleCreateRun` has made keeps the invariant.
    pub start-Inv : Inv p (start p ws (new_run id w j at))
    unfolding start run_workflow
    start-Inv = run_found-Inv p (lookup w ws) _ fresh_Busy
