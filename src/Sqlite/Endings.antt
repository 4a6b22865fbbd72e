-- ===== src/Sqlite/Endings.antt =====
-- How an execution of the SQLite host stands to its row (`runWorkflow`, `setRunTerminal` of
-- examples/hosts/sqlite/src/server.ts).
use wop.Prelude.{
  ℕ, String, ◌≡◌, refl, sym, ap, ◌∙◌, not, true, false, Option, none, some, List, [], ◌∷◌, all,
  lookup, arith, if_cases, maybe_cases,
}
use wop.Platform.{Platform}
use wop.Workflow.{Node, FixtureWorkflow, NodeOutcome, NodeKind, node_kind, is_terminal}
use wop.Memory.Run.{RunError}
use wop.Sqlite.Rows.{
  RunRow, is_held_by, append_event, set_run_terminal, update_run_status, release_claim,
  set_cancel_requested, try_claim, renew_claim, release_on_shutdown,
}
use wop.Sqlite.Claims.{
  Statement, claim, heartbeat, shut_down, cancel, finish, start_run, append, run_statement,
}
use wop.Sqlite.Engine.{
  Process, Task, sleeping, slept, returned, finished, is_finished, Execution, is_cancelling,
  unstarted, fire_timer, resume, resume_task, request_cancel, run_nodes, execute_node, dispatch,
  sleep, after_node, complete_node, cancel_node, finish_cancelled, finish_completed, finish_failed,
  announce, run_found, run_workflow,
}
use wop.Sqlite.Connections.{connect, disconnect}
use wop.Sqlite.Turns.{
  Turn, timer, resumption, cancel_here, subscribe, hang_up, beat, elsewhere, is_quiet, is_allowed,
  turn, run_schedule,
}

module _ (p : Platform) (me : Process) (claim_ttl_ms : ℕ) where
  pub record Inv (x : Execution) : Type 0 where
    -- the status is terminal exactly when the execution has ended
    pub done : is_finished x.task ≡ is_terminal x.row.status
    -- a cancel request finds the aborter as long as the execution goes on
    pub registered : x.registered ≡ not (is_finished x.task)
    -- an execution that has ended holds no claim
    pub released : is_finished x.task ≡ true → is_held_by me.id x.row.claim_holder_id ≡ false

  -- In the middle of a turn.
  record Busy (x : Execution) : Type 0 where
    active : is_terminal x.row.status ≡ false
    listed : x.registered ≡ true

  finish_cancelled-Inv : (x : Execution) → Inv (finish_cancelled p me x)
  unfolding finish_cancelled set_run_terminal update_run_status release_claim append_event
  finish_cancelled-Inv x = record {
    done = ground arith;
    registered = refl;
    released = λ e. ground arith;
  }

  finish_completed-Inv : (x : Execution) → Inv (finish_completed p me x)
  unfolding finish_completed set_run_terminal update_run_status release_claim append_event
  finish_completed-Inv x = record {
    done = ground arith;
    registered = refl;
    released = λ e. ground arith;
  }

  finish_failed-Inv : (error : RunError) (x : Execution) → Inv (finish_failed p me error x)
  unfolding finish_failed set_run_terminal update_run_status release_claim append_event
  finish_failed-Inv error x = record {
    done = ground arith;
    registered = refl;
    released = λ e. ground arith;
  }

  complete_node-Inv :
      (n : Node) (r : List Node) (x : Execution) → Busy x → Inv (complete_node p me n r x)
  unfolding complete_node append_event
  complete_node-Inv n r x b = record {
    done = sym b.active;
    registered = b.listed;
    released = λ e. cc;
  }

  cancel_node-Inv :
      (n : Node) (r : List Node) (x : Execution) → Busy x → Inv (cancel_node p me n r x)
  unfolding cancel_node append_event
  cancel_node-Inv n r x b = record {
    done = sym b.active;
    registered = b.listed;
    released = λ e. cc;
  }

  dispatch-Inv :
      (k : NodeKind) (n : Node) (r : List Node) (x : Execution)
      → Busy x
      → Inv (dispatch p me k n r x)
  unfolding dispatch sleep append_event
  dispatch-Inv NodeKind.noop n r x b = complete_node-Inv n r x b
  dispatch-Inv NodeKind.delay n r x b = record {
    done = ground (arith, b.active);
    registered = ground (arith, b.listed);
    released = λ e. ground (arith, e);
  }
  dispatch-Inv NodeKind.unsupported n r x b = record {
    done = sym b.active;
    registered = b.listed;
    released = λ e. cc;
  }

  execute_node-Inv :
      (n : Node) (r : List Node) (x : Execution) → Busy x → Inv (execute_node p me n r x)
  unfolding execute_node append_event
  execute_node-Inv n r x b =
      if_cases Inv (is_cancelling x.row.status) _ _ (λ h. cancel_node-Inv n r x b)
        (λ h.
          dispatch-Inv (node_kind n.type_id) n r _
            (record { active = b.active; listed = b.listed }))

  run_nodes-Inv : (ns : List Node) (x : Execution) → Busy x → Inv (run_nodes p me ns x)
  unfolding run_nodes
  run_nodes-Inv [] x b =
      if_cases Inv (is_cancelling x.row.status) _ _ (λ h. finish_cancelled-Inv x)
        (λ h. finish_completed-Inv x)
  run_nodes-Inv (n ∷ r) x b =
      if_cases Inv (is_cancelling x.row.status) _ _ (λ h. finish_cancelled-Inv x)
        (λ h. execute_node-Inv n r x b)

  after_node-Inv :
      (o : NodeOutcome) (n : Node) (r : List Node) (x : Execution)
      → Busy x
      → Inv (after_node p me o n r x)
  unfolding after_node
  after_node-Inv NodeOutcome.completed n r x b = run_nodes-Inv r x b
  after_node-Inv NodeOutcome.cancelled n r x b = finish_cancelled-Inv x
  after_node-Inv NodeOutcome.failed n r x b = finish_failed-Inv _ x

  Inv-Busy : (x : Execution) → Inv x → is_finished x.task ≡ false → Busy x
  Inv-Busy x h u = record { active = sym h.done ∙ u; listed = h.registered ∙ ap not u }

  resume_task-Inv : (t : Task) (x : Execution) → x.task ≡ t → Inv x → Inv (resume_task p me t x)
  unfolding resume_task
  resume_task-Inv (sleeping ms n r) x e h = h
  resume_task-Inv (slept true n r) x e h = complete_node-Inv n r x (Inv-Busy x h (rw e refl))
  resume_task-Inv (slept false n r) x e h = cancel_node-Inv n r x (Inv-Busy x h (rw e refl))
  resume_task-Inv (returned o n r) x e h = after_node-Inv o n r x (Inv-Busy x h (rw e refl))
  resume_task-Inv finished x e h = h

  quiet-Inv :
      (s : Statement) (x : Execution)
      → is_quiet s ≡ true
      → Inv x
      → Inv (turn p me claim_ttl_ms (elsewhere s) x)
  unfolding turn run_statement try_claim renew_claim release_on_shutdown set_cancel_requested
  quiet-Inv (claim who at now) x q h = record {
    done = ground (arith, h.done);
    registered = h.registered;
    released = λ e. ground (arith, e, h.done, h.released e);
  }
  quiet-Inv (heartbeat who now) x q h = record {
    done = ground (arith, h.done);
    registered = h.registered;
    released = λ e. ground (arith, h.released e);
  }
  quiet-Inv (shut_down who) x q h = record {
    done = ground (arith, h.done);
    registered = h.registered;
    released = λ e. ground (arith, h.released e);
  }
  quiet-Inv cancel x q h = record {
    done = ground (arith, h.done);
    registered = h.registered;
    released = h.released;
  }
  quiet-Inv (finish who status error) x q h = cc
  quiet-Inv start_run x q h = cc
  quiet-Inv (append type node_id payload) x q h = cc

  pub turn-Inv :
      (t : Turn) (x : Execution) → is_allowed t ≡ true → Inv x → Inv (turn p me claim_ttl_ms t x)
  unfolding turn fire_timer resume request_cancel set_cancel_requested connect disconnect
  turn-Inv timer x a h = record {
    done = ground (arith, h.done);
    registered = ground (arith, h.registered);
    released = λ e. h.released (ground (arith, e));
  }
  turn-Inv resumption x a h = resume_task-Inv x.task x refl h
  turn-Inv cancel_here x a h = record {
    done = ground (arith, h.done);
    registered = ground (arith, h.registered);
    released = λ e. ground (arith, e, h.done, h.registered, h.released);
  }
  turn-Inv (subscribe k) x a h = record {
    done = h.done;
    registered = h.registered;
    released = h.released;
  }
  turn-Inv (hang_up i) x a h = record {
    done = h.done;
    registered = h.registered;
    released = h.released;
  }
  turn-Inv (beat now) x a h =
      if_cases Inv x.registered _ _ (λ beats. quiet-Inv (heartbeat me.id now) x refl h)
        (λ stopped. h)
  turn-Inv (elsewhere s) x a h = quiet-Inv s x a h

  schedule-Inv :
      (ts : List Turn) (x : Execution)
      → all is_allowed ts ≡ true
      → Inv x
      → Inv (run_schedule p me claim_ttl_ms ts x)
  unfolding run_schedule
  schedule-Inv [] x a h = h
  schedule-Inv (t ∷ ts) x a h =
      schedule-Inv ts (turn p me claim_ttl_ms t x) (ground (arith, a))
        (turn-Inv t x (ground (arith, a)) h)

  announce-Busy : (x : Execution) → x.registered ≡ true → Busy (announce p me x)
  unfolding announce update_run_status append_event
  announce-Busy x h = record { active = ground arith; listed = ground (arith, h) }

  pub run_found-Inv :
      (found : Option FixtureWorkflow) (row : RunRow) → Inv (run_found p me found row)
  unfolding run_found
  run_found-Inv none row = finish_failed-Inv _ _
  run_found-Inv (some workflow) row =
      maybe_cases Inv (p.json_parse row.inputs_json) _ _ (λ e. finish_failed-Inv _ _)
        (λ inputs e.
          run_nodes-Inv workflow.nodes _ (
            announce-Busy (record (unstarted p me row) { inputs = inputs; registered = true })
              refl))

  -- From the call of `runWorkflow` on, whatever turns come and whatever claims, heartbeats, shutdowns
  -- and cancel requests of any process fall between them: the status is terminal exactly when the
  -- execution has ended, until then a cancel request finds its aborter, and from then on the process
  -- holds no claim on the run.
  pub run_workflow-Inv :
      (workflows : List (String × FixtureWorkflow)) (row : RunRow) (ts : List Turn)
      → all is_allowed ts ≡ true
      → Inv (run_schedule p me claim_ttl_ms ts (run_workflow p me workflows row))
  unfolding run_workflow
  run_workflow-Inv workflows row ts a =
      schedule-Inv ts _ a (run_found-Inv (lookup row.workflow_id workflows) row)
