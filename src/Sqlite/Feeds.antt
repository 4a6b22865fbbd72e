-- ===== src/Sqlite/Feeds.antt =====
-- The event streams of a run while one process of the SQLite host executes it, and in a process that
-- does not (`appendEvent`, `handleEventsSse`, `runWorkflow` of examples/hosts/sqlite/src/server.ts).
use wop.Prelude.{
  String, ◌≡◌, refl, sym, subst, Bool, true, false, Option, none, some, List, [], ◌∷◌, any, lookup,
  All, All-append, if_cases, maybe_cases,
}
use wop.Json.{Json}
use wop.Platform.{Platform}
use wop.Workflow.{
  Node, FixtureWorkflow, NodeOutcome, NodeKind, node_kind, EventType, RunStatus, is_final_type,
  node_started, run_cancelled, run_completed, run_failed,
}
use wop.Memory.Run.{RunError}
use wop.Memory.Engine.{error_json}
use wop.Sqlite.Rows.{
  RunRow, is_held_by, append_event, set_run_terminal, update_run_status, release_claim,
}
use wop.Sqlite.Engine
use wop.Sqlite.Engine.{
  Process, Task, sleeping, slept, returned, finished, is_finished, Execution, is_cancelling,
  is_run_started, live_event, unstarted, run_nodes, execute_node, dispatch, sleep, after_node,
  complete_node, cancel_node, finish_cancelled, finish_completed, finish_failed, announce,
  run_found, run_workflow, resume_task,
}
use wop.Sqlite.Live.{Ok, ReadsBack, Stable, row_of, Served-all, row_of-ReadsBack}

module _ (p : Platform) (me : Process) (stable : Stable p) where
  abbrev pub Now : Bool → Execution → Type 0
  Now over x = Ok p over x.row.events x.connections

  -- Between two turns.
  abbrev pub Settled : Execution → Type 0
  Settled x = Now (is_finished x.task) x

  append-Now :
      (type : EventType) (node_id : Option String) (payload : Option Json) (x : Execution)
      → Now false x
      → Now (is_final_type type) (Engine.append p me type node_id payload x)
  unfolding append_event
  append-Now type node_id payload x (back, served) =
      let e = live_event p me type node_id payload x.row in
      (
        All-append (ReadsBack p) x.row.events (row_of p e ∷ []) back
            (row_of-ReadsBack p e stable, tt),
        Served-all p x.row.events e x.connections refl served,
      )

  events-set_run_terminal :
      (who : String) (status : RunStatus) (error : Option RunError) (row : RunRow)
      → (set_run_terminal p who status error row).events ≡ row.events
  unfolding set_run_terminal update_run_status release_claim
  events-set_run_terminal who status error row =
      if_cases (λ (r : RunRow). r.events ≡ row.events) (is_held_by who row.claim_holder_id) _ _
        (λ e. refl) (λ e. refl)

  end_run-Settled :
      (status : RunStatus) (error : Option RunError) (x : Execution)
      → Now true x
      → Settled (Engine.end_run p me status error x)
  end_run-Settled status error x h =
      subst (λ es. Ok p true es x.connections)
        (sym (events-set_run_terminal me.id status error x.row)) h

  finish_cancelled-Settled : (x : Execution) → Now false x → Settled (finish_cancelled p me x)
  unfolding finish_cancelled
  finish_cancelled-Settled x h =
      end_run-Settled _ _ (Engine.append p me run_cancelled none none x) (append-Now _ _ _ x h)

  finish_completed-Settled : (x : Execution) → Now false x → Settled (finish_completed p me x)
  unfolding finish_completed
  finish_completed-Settled x h =
      end_run-Settled _ _ (Engine.append p me run_completed none none x) (append-Now _ _ _ x h)

  finish_failed-Settled :
      (error : RunError) (x : Execution) → Now false x → Settled (finish_failed p me error x)
  unfolding finish_failed
  finish_failed-Settled error x h =
      end_run-Settled _ _ (Engine.append p me run_failed none (some (error_json error)) x)
        (append-Now _ _ _ x h)

  complete_node-Settled :
      (n : Node) (r : List Node) (x : Execution) → Now false x → Settled (complete_node p me n r x)
  unfolding complete_node
  complete_node-Settled n r x h = append-Now _ _ _ x h

  cancel_node-Settled :
      (n : Node) (r : List Node) (x : Execution) → Now false x → Settled (cancel_node p me n r x)
  unfolding cancel_node
  cancel_node-Settled n r x h = append-Now _ _ _ x h

  dispatch-Settled :
      (k : NodeKind) (n : Node) (r : List Node) (x : Execution)
      → Now false x
      → Settled (dispatch p me k n r x)
  unfolding dispatch sleep
  dispatch-Settled NodeKind.noop n r x h = complete_node-Settled n r x h
  dispatch-Settled NodeKind.delay n r x h =
      if_cases (λ (t : Task). Ok p (is_finished t) x.row.events x.connections) x.aborted _ _
        (λ e. h) (λ e. h)
  dispatch-Settled NodeKind.unsupported n r x h = append-Now _ _ _ x h

  execute_node-Settled :
      (n : Node) (r : List Node) (x : Execution) → Now false x → Settled (execute_node p me n r x)
  unfolding execute_node
  execute_node-Settled n r x h =
      if_cases Settled (is_cancelling x.row.status) _ _ (λ e. cancel_node-Settled n r x h)
        (λ e. dispatch-Settled (node_kind n.type_id) n r _ (append-Now node_started _ _ x h))

  run_nodes-Settled : (ns : List Node) (x : Execution) → Now false x → Settled (run_nodes p me ns x)
  unfolding run_nodes
  run_nodes-Settled [] x h =
      if_cases Settled (is_cancelling x.row.status) _ _ (λ e. finish_cancelled-Settled x h)
        (λ e. finish_completed-Settled x h)
  run_nodes-Settled (n ∷ r) x h =
      if_cases Settled (is_cancelling x.row.status) _ _ (λ e. finish_cancelled-Settled x h)
        (λ e. execute_node-Settled n r x h)

  after_node-Settled :
      (o : NodeOutcome) (n : Node) (r : List Node) (x : Execution)
      → Now false x
      → Settled (after_node p me o n r x)
  unfolding after_node
  after_node-Settled NodeOutcome.completed n r x h = run_nodes-Settled r x h
  after_node-Settled NodeOutcome.cancelled n r x h = finish_cancelled-Settled x h
  after_node-Settled NodeOutcome.failed n r x h = finish_failed-Settled _ x h

  pub resume_task-Settled :
      (t : Task) (x : Execution) → x.task ≡ t → Settled x → Settled (resume_task p me t x)
  unfolding resume_task
  resume_task-Settled (sleeping ms n r) x e h = h
  resume_task-Settled (slept true n r) x e h = complete_node-Settled n r x (rw e at h)
  resume_task-Settled (slept false n r) x e h = cancel_node-Settled n r x (rw e at h)
  resume_task-Settled (returned o n r) x e h = after_node-Settled o n r x (rw e at h)
  resume_task-Settled finished x e h = h

  announce-Now : (x : Execution) → Now false x → Now false (announce p me x)
  unfolding announce update_run_status
  announce-Now x h =
      let running = record x { row = update_run_status RunStatus.running none none x.row } in
      if_cases (Now false) (any is_run_started x.row.events) _ _ (λ e. append-Now _ _ _ running h)
        (λ e. append-Now _ _ _ running h)

  run_found-Settled :
      (found : Option FixtureWorkflow) (row : RunRow)
      → All (ReadsBack p) row.events
      → Settled (run_found p me found row)
  unfolding run_found
  run_found-Settled none row back = finish_failed-Settled _ _ (back, tt)
  run_found-Settled (some workflow) row back =
      maybe_cases Settled (p.json_parse row.inputs_json) _ _
        (λ e. finish_failed-Settled _ _ (back, tt))
        (λ inputs e. run_nodes-Settled workflow.nodes _ (
          announce-Now (record (unstarted p me row) { inputs = inputs; registered = true })
            (back, tt)))

  pub run_workflow-Settled :
      (workflows : List (String × FixtureWorkflow)) (row : RunRow)
      → All (ReadsBack p) row.events
      → Settled (run_workflow p me workflows row)
  unfolding run_workflow
  run_workflow-Settled workflows row back =
      run_found-Settled (lookup row.workflow_id workflows) row back
