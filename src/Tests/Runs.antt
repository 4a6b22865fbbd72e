-- ===== src/Tests/Runs.antt =====
-- One run of a workflow of two nodes, and the theorems on schedules applied to it.
use wop.Prelude.{◌≡◌, ◌⊎◌, refl, true, false, none, some, List, [], ◌∷◌, ◌++◌, arith}
use wop.Json.{minus_one, object}
use wop.Workflow.{RunStatus, is_terminal, run_started, run_completed, node_started, node_completed}
use wop.Memory.Run.{Live, is_finished, append_event, new_event, on_event}
use wop.Memory.Engine.{
  complete_node, sleep, dispatch, execute_node, finish_completed, run_nodes, after_node, run_found,
  run_workflow, resume_task, resume,
}
use wop.Memory.Turns.{
  start, turn, run_schedule, request_cancel, Turn, timer, resumption, cancel, subscribe, hang_up,
  fire_timer, connect, open_connection, disconnect,
}
use wop.Memory.Invariant.{Inv}
use wop.Memory.Invariant.Schedules.{run_schedule-Inv}
use wop.Memory.Plan.{schedule-log, labels, pending}
use wop.Memory.Cancel.{cancel_stops, starts}
use wop.Memory.Progress.{drive_terminal, drive}
use wop.Memory.Fairness.{fair_ends, rounds}
use wop.Tests.{platform, flow, workflows, started, started-Inv, run_it}

-- A whole run without interruption.
abbrev schedule : List Turn
schedule = subscribe minus_one ∷ timer ∷ resumption ∷ hang_up 7 ∷ resumption ∷ resumption ∷ []

completes : (run_schedule platform schedule started).run.status ≡ RunStatus.completed
unfolding start run_workflow run_found run_nodes execute_node dispatch sleep complete_node
    after_node finish_completed append_event new_event run_schedule turn resume resume_task
    fire_timer connect open_connection disconnect on_event
completes = refl

schedule-log_example :
    labels (run_it schedule) ++ pending (run_it schedule).task
    ≡ (run_started, none)
      ∷ (node_started, some "n2")
      ∷ (node_completed, some "n2")
      ∷ (node_started, some "n1")
      ∷ (node_completed, some "n1")
      ∷ (run_completed, none)
      ∷ []
schedule-log_example =
    schedule-log platform workflows "run-1" "wf" (object []) "t0" flow schedule refl refl

cancel_stops_example :
    (starts
        (run_schedule platform (resumption ∷ resumption ∷ []) (request_cancel started)).run.events
      ≡ starts started.run.events)
    × (((run_schedule platform (resumption ∷ resumption ∷ []) (request_cancel started)).run.status
          ≡ RunStatus.cancelled)
        ⊎ (is_finished
              (run_schedule platform (resumption ∷ resumption ∷ []) (request_cancel started)).task
            ≡ false))
unfolding start run_workflow run_found run_nodes execute_node dispatch sleep append_event
cancel_stops_example =
    cancel_stops platform started (resumption ∷ resumption ∷ []) started-Inv refl refl

abbrev fair_rounds : List (List Turn)
fair_rounds =
    (timer ∷ subscribe minus_one ∷ resumption ∷ [])
    ∷ (cancel ∷ timer ∷ resumption ∷ [])
    ∷ (timer ∷ resumption ∷ [])
    ∷ (timer ∷ hang_up 0 ∷ resumption ∷ [])
    ∷ (timer ∷ resumption ∷ resumption ∷ [])
    ∷ (timer ∷ resumption ∷ [])
    ∷ []

fair_ends_example : is_finished (run_it (rounds fair_rounds)).task ≡ true
unfolding start run_workflow run_found run_nodes execute_node dispatch sleep append_event
fair_ends_example =
    fair_ends platform fair_rounds started (refl, (refl, (refl, (refl, (refl, (refl, tt))))))
      (omega arith)

drive_terminal_example : is_terminal (drive platform 9 started).run.status ≡ true
unfolding start run_workflow run_found run_nodes execute_node dispatch sleep append_event
drive_terminal_example = drive_terminal platform 9 started started-Inv (omega arith)

-- Once the two nodes and the run have ended.
over_ends : is_finished (run_it schedule).task ≡ true
unfolding start run_workflow run_found run_nodes execute_node dispatch sleep complete_node
    after_node finish_completed append_event new_event run_schedule turn resume resume_task
    fire_timer connect open_connection disconnect on_event
over_ends = refl

abbrev over : Live
over = run_it schedule

over-Inv : Inv platform over
over-Inv = run_schedule-Inv platform schedule started started-Inv
