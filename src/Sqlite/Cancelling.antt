-- ===== src/Sqlite/Cancelling.antt =====
-- Cancel requests to the SQLite host (`handleCancelRun`, `runWorkflow` of
-- examples/hosts/sqlite/src/server.ts).
use wop.Prelude.{
  if_cases, ℕ, ◌+◌, String, ◌≡◌, refl, sym, subst, ◌∙◌, Bool, true, false, Option, none, some, List,
  [], ◌∷◌, ◌++◌, all, lookup, arith, if◌then◌else◌,
}
use wop.Json.{Json}
use wop.Platform.{Platform}
use wop.Workflow.{
  Node, FixtureWorkflow, NodeOutcome, RunStatus, EventType, node_started, run_cancelled,
  node_completed, node_cancelled, is_terminal,
}
use wop.Sqlite.Rows.{
  EventRow, RunRow, append_event, set_run_terminal, update_run_status, release_claim,
  set_cancel_requested, try_claim, renew_claim, release_on_shutdown,
}
use wop.Sqlite.Claims.{
  Statement, claim, heartbeat, shut_down, cancel, finish, start_run, append, run_statement,
}
use wop.Sqlite.Engine.{
  Process, Task, sleeping, slept, returned, finished, is_finished, Execution, fire_timer, resume,
  resume_task, request_cancel, run_nodes, after_node, complete_node, cancel_node, finish_cancelled,
  finish_failed, announce, run_found, run_workflow,
}
use wop.Sqlite.Connections.{connect, disconnect}
use wop.Sqlite.Turns.{
  Turn, timer, resumption, cancel_here, subscribe, hang_up, beat, elsewhere, is_quiet, is_allowed,
  turn, run_schedule,
}

-- The number of nodes that were started.
abbrev is_start : EventRow → Bool
is_start e = elim e.type [ node_started ↦ true | _ ↦ false ]

abbrev pub starts : List EventRow → ℕ
starts [] = 0
starts (e ∷ es) = (if is_start e then 1 else 0) + starts es

starts-append :
    (es : List EventRow) (e : EventRow)
    → starts (es ++ e ∷ []) ≡ starts es + (if is_start e then 1 else 0)
starts-append [] e = omega arith
starts-append (x ∷ es) e = omega (arith, starts-append es e)

-- A node has failed, and `runWorkflow` has still to see it.
abbrev pub is_failing : Task → Bool
is_failing (returned NodeOutcome.failed node rest) = true
is_failing _ = false

-- A run on its way to `cancelled`, or there, of which this many nodes were started.
pub record Stopping (n : ℕ) (x : Execution) : Type 0 where
  pub started : starts x.row.events ≡ n
  pub unfailed : is_failing x.task ≡ false
  pub verdict :
      x.row.status ≡ (if is_finished x.task then RunStatus.cancelled else RunStatus.cancelling)

module _ (p : Platform) where
  starts-append_event :
      (t : EventType) (node_id : Option String) (d : Option Json) (row : RunRow)
      → (elim t [ node_started ↦ true | _ ↦ false ]) ≡ false
      → starts (append_event p t node_id d row).events ≡ starts row.events
  unfolding append_event
  starts-append_event t node_id d row h = starts-append row.events _ ∙ rw h (omega arith)

  module _ (me : Process) (claim_ttl_ms : ℕ) where
    finish_cancelled-Stopping :
        (n : ℕ) (x : Execution) → starts x.row.events ≡ n → Stopping n (finish_cancelled p me x)
    unfolding finish_cancelled set_run_terminal update_run_status release_claim append_event
    finish_cancelled-Stopping n x h = record {
      started = ground (arith, h, starts-append_event run_cancelled none none x.row refl);
      unfailed = refl;
      verdict = ground arith;
    }

    run_nodes-Stopping :
        (nodes : List Node) (n : ℕ) (x : Execution)
        → starts x.row.events ≡ n
        → x.row.status ≡ RunStatus.cancelling
        → Stopping n (run_nodes p me nodes x)
    unfolding run_nodes
    run_nodes-Stopping nodes n x h s =
        let stops : run_nodes p me nodes x ≡ finish_cancelled p me x = ground (arith, s, nodes) in
        subst (Stopping n) (sym stops) (finish_cancelled-Stopping n x h)

    resume_task-Stopping :
        (t : Task) (n : ℕ) (x : Execution)
        → x.task ≡ t
        → Stopping n x
        → Stopping n (resume_task p me t x)
    unfolding resume_task after_node complete_node cancel_node append_event
    resume_task-Stopping (sleeping ms node rest) n x e h = h
    resume_task-Stopping (slept true node rest) n x e h = record {
      started = starts-append_event node_completed (some node.id) none x.row refl ∙ h.started;
      unfailed = refl;
      verdict = h.verdict ∙ rw e refl;
    }
    resume_task-Stopping (slept false node rest) n x e h = record {
      started = starts-append_event node_cancelled (some node.id) none x.row refl ∙ h.started;
      unfailed = refl;
      verdict = h.verdict ∙ rw e refl;
    }
    resume_task-Stopping (returned NodeOutcome.completed node rest) n x e h =
        run_nodes-Stopping rest n x h.started (h.verdict ∙ rw e refl)
    resume_task-Stopping (returned NodeOutcome.cancelled node rest) n x e h =
        finish_cancelled-Stopping n x h.started
    resume_task-Stopping (returned NodeOutcome.failed node rest) n x e h =
        ground (arith, h.unfailed, e)
    resume_task-Stopping finished n x e h = h

    quiet-Stopping :
        (s : Statement) (n : ℕ) (x : Execution)
        → is_quiet s ≡ true
        → Stopping n x
        → Stopping n (turn p me claim_ttl_ms (elsewhere s) x)
    unfolding turn run_statement try_claim renew_claim release_on_shutdown set_cancel_requested
    quiet-Stopping (claim who at now) n x q h = record {
      started = ground (arith, h.started);
      unfailed = h.unfailed;
      verdict = ground (arith, h.verdict);
    }
    quiet-Stopping (heartbeat who now) n x q h = record {
      started = ground (arith, h.started);
      unfailed = h.unfailed;
      verdict = ground (arith, h.verdict);
    }
    quiet-Stopping (shut_down who) n x q h = record {
      started = ground (arith, h.started);
      unfailed = h.unfailed;
      verdict = ground (arith, h.verdict);
    }
    quiet-Stopping cancel n x q h = record {
      started = h.started;
      unfailed = h.unfailed;
      verdict = ground (arith, h.verdict);
    }
    quiet-Stopping (finish who status error) n x q h = cc
    quiet-Stopping start_run n x q h = cc
    quiet-Stopping (append type node_id payload) n x q h = cc

    turn-Stopping :
        (t : Turn) (n : ℕ) (x : Execution)
        → is_allowed t ≡ true
        → Stopping n x
        → Stopping n (turn p me claim_ttl_ms t x)
    unfolding turn fire_timer resume request_cancel set_cancel_requested connect disconnect
    turn-Stopping timer n x a h = record {
      started = h.started;
      unfailed = ground (arith, h.unfailed);
      verdict = ground (arith, h.verdict);
    }
    turn-Stopping resumption n x a h = resume_task-Stopping x.task n x refl h
    turn-Stopping cancel_here n x a h = record {
      started = ground (arith, h.started);
      unfailed = ground (arith, h.unfailed);
      verdict = ground (arith, h.verdict);
    }
    turn-Stopping (subscribe k) n x a h = record {
      started = h.started;
      unfailed = h.unfailed;
      verdict = h.verdict;
    }
    turn-Stopping (hang_up i) n x a h = record {
      started = h.started;
      unfailed = h.unfailed;
      verdict = h.verdict;
    }
    turn-Stopping (beat now) n x a h =
        if_cases (Stopping n) x.registered _ _
          (λ beats. quiet-Stopping (heartbeat me.id now) n x refl h) (λ stopped. h)
    turn-Stopping (elsewhere s) n x a h = quiet-Stopping s n x a h

    schedule-Stopping :
        (ts : List Turn) (n : ℕ) (x : Execution)
        → all is_allowed ts ≡ true
        → Stopping n x
        → Stopping n (run_schedule p me claim_ttl_ms ts x)
    unfolding run_schedule
    schedule-Stopping [] n x a h = h
    schedule-Stopping (t ∷ ts) n x a h =
        schedule-Stopping ts n (turn p me claim_ttl_ms t x) (ground (arith, a))
          (turn-Stopping t n x (ground (arith, a)) h)

    -- A cancel request to this process, or to another one that shares the database.
    abbrev pub is_cancel : Turn → Bool
    is_cancel cancel_here = true
    is_cancel (elsewhere cancel) = true
    is_cancel _ = false

    cancel-Stopping :
        (c : Turn) (x : Execution)
        → is_cancel c ≡ true
        → is_terminal x.row.status ≡ false
        → is_finished x.task ≡ false
        → is_failing x.task ≡ false
        → Stopping (starts x.row.events) (turn p me claim_ttl_ms c x)
    unfolding turn request_cancel set_cancel_requested run_statement
    cancel-Stopping c x i t u f = record {
      started = ground (arith, i, t, u, f, c);
      unfailed = ground (arith, i, t, u, f, c);
      verdict = ground (arith, i, t, u, f, c);
    }

    -- After a cancel request, to this process or to another one, to a run that is executed here and
    -- has not just failed at a node, no node is started any more and the run is `cancelling` until
    -- it ends as `cancelled`, whatever turns come and whatever claims, heartbeats, shutdowns and
    -- cancel requests of other processes fall between them.
    pub cancel_stops_execution :
        (c : Turn) (ts : List Turn) (x : Execution)
        → is_cancel c ≡ true
        → all is_allowed ts ≡ true
        → is_terminal x.row.status ≡ false
        → is_finished x.task ≡ false
        → is_failing x.task ≡ false
        → Stopping
            (starts x.row.events)
            (run_schedule p me claim_ttl_ms ts (turn p me claim_ttl_ms c x))
    cancel_stops_execution c ts x i a t u f =
        schedule-Stopping ts _ (turn p me claim_ttl_ms c x) a (cancel-Stopping c x i t u f)

  run_found_forgets :
      (me : Process) (found : Option FixtureWorkflow) (row : RunRow) (s : RunStatus)
      → run_found p me found (record row { status = s }) ≡ run_found p me found row
  unfolding run_found announce finish_failed set_run_terminal update_run_status release_claim
      append_event
  run_found_forgets me none row s = refl
  run_found_forgets me (some workflow) row s = refl

  -- An execution that begins, or that takes an orphan over, does the same whatever the status of the
  -- row: where a client's cancel request had left `cancelling`, it is lost.
  pub run_workflow_forgets_status :
      (me : Process) (workflows : List (String × FixtureWorkflow)) (row : RunRow) (s : RunStatus)
      → run_workflow p me workflows (record row { status = s }) ≡ run_workflow p me workflows row
  unfolding run_workflow
  run_workflow_forgets_status me workflows row s =
      run_found_forgets me (lookup row.workflow_id workflows) row s
