-- ===== src/Memory/Engine.antt =====
-- The execution of a run (`executeNode`, `runWorkflow`, `sleep` of
-- examples/hosts/in-memory/src/server.ts) as the turns of the event loop. An `await` ends a turn: what
-- follows it is the next `resume`, and between two turns the handlers of requests may run.
use Prim.Native.String
use wop.Prelude.{String, true, false, Option, none, some, List, [], ◌∷◌, lookup, if◌then◌else◌}
use wop.Json.{Json, Num, nat_num, str, object}
use wop.Platform.{Platform}
use wop.Workflow.{
  Node, FixtureWorkflow, NodeOutcome, NodeKind, node_kind, RunStatus, run_started, run_completed,
  run_failed, run_cancelled, node_started, node_completed, node_failed, node_cancelled,
  resolve_input_as_number,
}
use wop.Memory.Run.{RunError, Run, Task, sleeping, slept, returned, finished, Live, append_event}

abbrev pub error_json : RunError → Json
error_json e = object (("code", str e.code) ∷ ("message", str e.message) ∷ [])

abbrev pub error_data : Option RunError → Option Json
error_data none = some Json.null
error_data (some e) = some (error_json e)

abbrev pub unsupported_node_type : Node → RunError
unsupported_node_type node = record {
  code = "unsupported_node_type";
  message =
      String.◌++◌ "In-memory host does not implement node type \""
        (String.◌++◌ node.type_id "\". This host supports core.noop and core.delay only.");
}

abbrev pub workflow_not_found : Run → RunError
workflow_not_found run = record {
  code = "workflow_not_found";
  message = String.◌++◌ "Unknown workflowId: " run.workflow_id;
}

abbrev set_status : RunStatus → Live → Live
set_status s l = record l { run = record l.run { status = s } }

abbrev set_error : RunError → Live → Live
set_error e l = record l { run = record l.run { error = some e } }

abbrev set_task : Task → Live → Live
set_task t l = record l { task = t }

module _ (p : Platform) where
  -- `run.endedAt = …; return;`
  abbrev pub end_run : Live → Live
  end_run l = record l {
    run = record l.run { ended_at = some (p.ended_time l.run.run_id) };
    task = finished;
  }

  -- `executeNode` after the switch
  unfoldable pub complete_node : Node → List Node → Live → Live
  complete_node node rest l =
      set_task (returned NodeOutcome.completed rest)
        (append_event p node_completed (some node.id) none l)

  unfoldable pub cancel_node : Node → List Node → Live → Live
  cancel_node node rest l =
      set_task (returned NodeOutcome.cancelled rest)
        (append_event p node_cancelled (some node.id) none l)

  -- The call of `sleep`, which rejects at once if the signal is aborted.
  unfoldable pub sleep : Num → Node → List Node → Live → Live
  sleep ms node rest l =
      set_task (if l.run.aborted then slept false node rest else sleeping ms node rest) l

  -- The switch of `executeNode`, up to its first `await` or its end.
  unfoldable pub dispatch : NodeKind → Node → List Node → Live → Live
  dispatch NodeKind.noop node rest l = complete_node node rest l
  dispatch NodeKind.delay node rest l =
      sleep (resolve_input_as_number p (lookup "delayMs" node.inputs) l.run.inputs (nat_num 100))
        node rest l
  dispatch NodeKind.unsupported node rest l = set_task (returned NodeOutcome.failed rest) (
      append_event p node_failed (some node.id)
        (some (object (("code", str "unsupported_node_type") ∷ ("typeId", str node.type_id) ∷ [])))
        (set_error (unsupported_node_type node) l))

  unfoldable pub execute_node : Node → List Node → Live → Live
  execute_node node rest l =
      if l.run.cancel_requested
      then cancel_node node rest l
      else dispatch (node_kind node.type_id) node rest
          (append_event p node_started (some node.id) none l)

  -- `run.status = …; appendEvent(run, …); run.endedAt = …`
  unfoldable pub finish_cancelled : Live → Live
  finish_cancelled l =
      end_run (append_event p run_cancelled none none (set_status RunStatus.cancelled l))

  unfoldable pub finish_completed : Live → Live
  finish_completed l =
      end_run (append_event p run_completed none none (set_status RunStatus.completed l))

  unfoldable pub finish_failed : Live → Live
  finish_failed l =
      end_run
        (append_event p run_failed none (error_data l.run.error) (set_status RunStatus.failed l))

  -- The loop of `runWorkflow` from its head, over the nodes that are left.
  unfoldable pub run_nodes : List Node → Live → Live
  run_nodes [] l = if l.run.cancel_requested then finish_cancelled l else finish_completed l
  run_nodes (node ∷ rest) l =
      if l.run.cancel_requested then finish_cancelled l else execute_node node rest l

  -- The body of the loop after `await executeNode(run, node)`.
  unfoldable pub after_node : NodeOutcome → List Node → Live → Live
  after_node NodeOutcome.failed rest l = finish_failed l
  after_node NodeOutcome.cancelled rest l = finish_cancelled l
  after_node NodeOutcome.completed rest l = run_nodes rest l

  -- `runWorkflow` after the lookup of the workflow
  unfoldable pub run_found : Option FixtureWorkflow → Live → Live
  run_found none l = finish_failed (set_error (workflow_not_found l.run) l)
  run_found (some workflow) l =
      run_nodes workflow.nodes
        (append_event p run_started none none (set_status RunStatus.running l))

  -- The call of `runWorkflow`, which runs up to its first `await`.
  unfoldable pub run_workflow : List (String × FixtureWorkflow) → Live → Live
  run_workflow workflows l = run_found (lookup l.run.workflow_id workflows) l

  unfoldable pub resume_task : Task → Live → Live
  resume_task (slept true node rest) l = complete_node node rest l
  resume_task (slept false node rest) l = cancel_node node rest l
  resume_task (returned outcome rest) l = after_node outcome rest l
  resume_task _ l = l

  -- One turn that continues the two async functions, if they wait for no timer.
  unfoldable pub resume : Live → Live
  resume l = resume_task l.task l
