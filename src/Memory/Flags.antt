-- ===== src/Memory/Flags.antt =====
-- The execution of a run neither asks for its cancellation nor aborts it, nor renames it.
use wop.Prelude.{◌≡◌, refl, List, [], ◌∷◌, arith, true, Option, some, none}
use wop.Platform.{Platform}
use wop.Workflow.{
  Node, NodeOutcome, NodeKind, node_kind, node_started, run_started, FixtureWorkflow, RunStatus,
}
use wop.Memory.Run.{Task, slept, returned, Live, append_event}
use wop.Memory.Engine.{
  complete_node, cancel_node, sleep, dispatch, execute_node, finish_cancelled, finish_completed,
  finish_failed, run_nodes, after_node, run_found, resume_task,
}

pub record SameFlags (l m : Live) : Type 0 where
  pub requested : m.run.cancel_requested ≡ l.run.cancel_requested
  pub aborted : m.run.aborted ≡ l.run.aborted
  pub run_id : m.run.run_id ≡ l.run.run_id

module _ (p : Platform) where
  dispatch-SameFlags :
      (k : NodeKind) (n : Node) (r : List Node) (l : Live) → SameFlags l (dispatch p k n r l)
  unfolding dispatch complete_node sleep append_event
  dispatch-SameFlags k n r l = ground arith

  run_nodes-SameFlags : (r : List Node) (l : Live) → SameFlags l (run_nodes p r l)
  unfolding run_nodes execute_node cancel_node finish_completed finish_cancelled append_event
  run_nodes-SameFlags [] l = ground arith
  run_nodes-SameFlags (n ∷ r) l = ground (
    arith,
    dispatch-SameFlags (node_kind n.type_id) n r (append_event p node_started (some n.id) none l),
  )

  pub resume_task-SameFlags : (t : Task) (l : Live) → SameFlags l (resume_task p t l)
  unfolding resume_task complete_node cancel_node after_node finish_failed finish_cancelled
      append_event
  resume_task-SameFlags (returned NodeOutcome.completed r) l = run_nodes-SameFlags r l
  resume_task-SameFlags (slept true n r) l = record {
    requested = refl;
    aborted = refl;
    run_id = refl;
  }
  resume_task-SameFlags _ l = record { requested = refl; aborted = refl; run_id = refl }

  pub run_found-SameFlags :
      (found : Option FixtureWorkflow) (l : Live) → SameFlags l (run_found p found l)
  unfolding run_found finish_failed append_event
  run_found-SameFlags none l = record { requested = refl; aborted = refl; run_id = refl }
  run_found-SameFlags (some flow) l =
      let same = run_nodes-SameFlags flow.nodes (
        append_event p run_started none none
          (record l { run = record l.run { status = RunStatus.running } })) in
      record { requested = same.requested; aborted = same.aborted; run_id = same.run_id }
