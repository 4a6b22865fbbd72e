-- ===== src/Sqlite/Steps.antt =====
-- What an execution in the SQLite host does next does not depend on the events that its run has: the
-- operations of `executeNode` and `runWorkflow` after the announcement, and the statements of other
-- processes (examples/hosts/sqlite/src/server.ts).
use wop.Prelude.{
  String, ◌≡◌, refl, sym, ap, ◌∙◌, Bool, true, false, Option, none, some, List, [], ◌∷◌, ◌++◌, map,
  map-append, append-nil, append_assoc, if◌then◌else◌, Bool-cases, inl, inr, arith,
}
use wop.Json.{Json}
use wop.Platform.{Platform}
use wop.Workflow.{
  Node, NodeOutcome, NodeKind, node_kind, RunStatus, EventType, run_completed, run_failed,
  run_cancelled, node_started, node_completed, node_failed, node_cancelled,
}
use wop.Memory.Run.{RunError}
use wop.Sqlite.Rows.{EventRow, append_event, set_run_terminal, update_run_status, release_claim}
use wop.Sqlite.Engine
use wop.Sqlite.Engine.{Process, Task, Execution, is_cancelling}

-- The type of an event and the node that it names.
abbrev pub marks : Execution → List (EventType × Option String)
marks x = map (λ (e : EventRow). (e.type, e.node_id)) x.row.events

-- An execution without its events, and without the connections that they were sent to.
abbrev pub forget : Execution → Execution
forget x = record x { row = record x.row { events = [] }; connections = [] }

-- From two executions that differ in their events alone, a step comes to such again, and it adds events
-- of the same types and nodes to both.
pub record Steps (f : Execution → Execution) : Type 0 where
  pub state : (x : Execution) → forget (f x) ≡ forget (f (forget x))
  pub log : (x : Execution) → marks (f x) ≡ marks x ++ marks (f (forget x))

pub then-Steps : (f g : Execution → Execution) → Steps f → Steps g → Steps (λ x. g (f x))
then-Steps f g a b = record {
  state = λ x. b.state (f x) ∙ ap (λ y. forget (g y)) (a.state x) ∙ sym (b.state (f (forget x)));
  log = λ x.
      b.log (f x)
      ∙ rw (a.log x, a.state x, b.log (f (forget x)))
          (append_assoc (marks x) (marks (f (forget x))) (marks (g (forget (f (forget x))))));
}

-- A choice by what is no event.
pub if-Steps :
    (test : Execution → Bool) (f g : Execution → Execution)
    → ((x : Execution) → test (forget x) ≡ test x)
    → Steps f
    → Steps g
    → Steps (λ x. if test x then f x else g x)
if-Steps test f g same a b = record {
  state = λ x. elim (Bool-cases (test x)) [
    | inl t ↦ rw (same x, t) (a.state x)
    | inr t ↦ rw (same x, t) (b.state x)
  ];
  log = λ x. elim (Bool-cases (test x)) [
    | inl t ↦ rw (same x, t) (a.log x)
    | inr t ↦ rw (same x, t) (b.log x)
  ];
}

-- A change that neither reads nor writes an event.
pub still-Steps :
    (f : Execution → Execution)
    → ((x : Execution) → forget (f x) ≡ forget (f (forget x)))
    → ((x : Execution) → (f x).row.events ≡ x.row.events)
    → Steps f
still-Steps f state same = record {
  state = state;
  log = λ x.
      ap (map (λ (e : EventRow). (e.type, e.node_id))) (same x)
      ∙ rw (same (forget x)) (sym (append-nil (marks x)));
}

module _ (p : Platform) (me : Process) where
  append-Steps :
      (type : EventType) (node_id : Option String) (payload : Option Json)
      → Steps (Engine.append p me type node_id payload)
  unfolding append_event
  append-Steps type node_id payload = record {
    state = λ x. refl;
    log = λ x. map-append (λ (e : EventRow). (e.type, e.node_id)) x.row.events _;
  }

  end_run-Steps :
      (status : RunStatus) (error : Option RunError) → Steps (Engine.end_run p me status error)
  unfolding set_run_terminal update_run_status release_claim
  end_run-Steps status error =
      still-Steps (Engine.end_run p me status error) (λ x. ground arith) (λ x. ground arith)

  -- The place where a function waits, found without the events.
  task-Steps :
      (at : Execution → Task)
      → ((x : Execution) → at (forget x) ≡ at x)
      → Steps (λ x. record x { task = at x })
  task-Steps at same =
      still-Steps (λ x. record x { task = at x }) (λ x. rw (same x) refl) (λ x. refl)

  finish_cancelled-Steps : Steps (Engine.finish_cancelled p me)
  unfolding Engine.finish_cancelled
  finish_cancelled-Steps =
      then-Steps _ _ (append-Steps run_cancelled none none) (end_run-Steps RunStatus.cancelled none)

  finish_completed-Steps : Steps (Engine.finish_completed p me)
  unfolding Engine.finish_completed
  finish_completed-Steps =
      then-Steps _ _ (append-Steps run_completed none none) (end_run-Steps RunStatus.completed none)

  finish_failed-Steps : (error : RunError) → Steps (Engine.finish_failed p me error)
  unfolding Engine.finish_failed
  finish_failed-Steps error =
      then-Steps _ _ (append-Steps run_failed none _) (end_run-Steps RunStatus.failed (some error))

  complete_node-Steps : (n : Node) (r : List Node) → Steps (Engine.complete_node p me n r)
  unfolding Engine.complete_node
  complete_node-Steps n r =
      then-Steps _ _ (append-Steps node_completed (some n.id) none)
        (task-Steps (λ x. Task.returned NodeOutcome.completed n r) (λ x. refl))

  cancel_node-Steps : (n : Node) (r : List Node) → Steps (Engine.cancel_node p me n r)
  unfolding Engine.cancel_node
  cancel_node-Steps n r =
      then-Steps _ _ (append-Steps node_cancelled (some n.id) none)
        (task-Steps (λ x. Task.returned NodeOutcome.cancelled n r) (λ x. refl))

  dispatch-Steps : (k : NodeKind) (n : Node) (r : List Node) → Steps (Engine.dispatch p me k n r)
  unfolding Engine.dispatch Engine.sleep
  dispatch-Steps NodeKind.noop n r = complete_node-Steps n r
  dispatch-Steps NodeKind.delay n r = task-Steps _ (λ x. refl)
  dispatch-Steps NodeKind.unsupported n r =
      then-Steps _ _ (append-Steps node_failed (some n.id) _)
        (task-Steps (λ x. Task.returned NodeOutcome.failed n r) (λ x. refl))

  execute_node-Steps : (n : Node) (r : List Node) → Steps (Engine.execute_node p me n r)
  unfolding Engine.execute_node
  execute_node-Steps n r =
      if-Steps (λ x. is_cancelling x.row.status) _ _ (λ x. refl) (cancel_node-Steps n r)
        (then-Steps _ _ (append-Steps node_started (some n.id) none)
          (dispatch-Steps (node_kind n.type_id) n r))

  pub run_nodes-Steps : (ns : List Node) → Steps (Engine.run_nodes p me ns)
  unfolding Engine.run_nodes
  run_nodes-Steps [] =
      if-Steps (λ x. is_cancelling x.row.status) _ _ (λ x. refl) finish_cancelled-Steps
        finish_completed-Steps
  run_nodes-Steps (n ∷ r) =
      if-Steps (λ x. is_cancelling x.row.status) _ _ (λ x. refl) finish_cancelled-Steps
        (execute_node-Steps n r)

  pub resume_task-Steps : (t : Task) → Steps (Engine.resume_task p me t)
  unfolding Engine.resume_task Engine.after_node
  resume_task-Steps (Task.sleeping ms n r) = still-Steps _ (λ x. refl) (λ x. refl)
  resume_task-Steps (Task.slept true n r) = complete_node-Steps n r
  resume_task-Steps (Task.slept false n r) = cancel_node-Steps n r
  resume_task-Steps (Task.returned NodeOutcome.completed n r) = run_nodes-Steps r
  resume_task-Steps (Task.returned NodeOutcome.cancelled n r) = finish_cancelled-Steps
  resume_task-Steps (Task.returned NodeOutcome.failed n r) = finish_failed-Steps _
  resume_task-Steps Task.finished = still-Steps _ (λ x. refl) (λ x. refl)
