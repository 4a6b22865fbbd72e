-- ===== src/Memory/Plan.antt =====
-- What a run that nobody cancels writes to its log, told from the workflow alone.
use wop.Prelude.{
  String, ◌≡◌, refl, ap, ◌∙◌, Bool, true, false, Option, none, some, List, [], ◌∷◌, ◌++◌, map,
  append_assoc, map-append, lookup, arith, if_cases, any,
}
use wop.Json.{Json}
use wop.Platform.{Platform}
use wop.Workflow.{
  Node, FixtureWorkflow, NodeOutcome, NodeKind, node_kind, RunStatus, EventType, run_started,
  run_completed, run_failed, run_cancelled, node_started, node_completed, node_failed,
  node_cancelled,
}
use wop.Memory.Run.{
  RunEvent, Task, sleeping, slept, returned, finished, Live, append_event, new_event,
}
use wop.Memory.Engine.{
  complete_node, cancel_node, sleep, dispatch, execute_node, finish_cancelled, finish_completed,
  finish_failed, run_nodes, after_node, run_found, run_workflow, resume_task, resume,
}
use wop.Memory.Flags.{resume_task-SameFlags, run_found-SameFlags}
use wop.Memory.Turns.{
  fire_timer, connect, disconnect, Turn, timer, resumption, cancel, subscribe, hang_up, turn,
  run_schedule, start, new_run, fresh,
}

-- An event without its number, time and data.
abbrev pub Label : Type 0
Label = EventType × Option String

abbrev pub label : RunEvent → Label
label e = (e.type, e.node_id)

abbrev after_start : NodeKind → Node → List Label → List Label
after_start NodeKind.noop n more = (node_completed, some n.id) ∷ more
after_start NodeKind.delay n more = (node_completed, some n.id) ∷ more
after_start NodeKind.unsupported n more = (node_failed, some n.id) ∷ (run_failed, none) ∷ []

-- The nodes in order, each started and completed, up to the first of an unsupported type.
abbrev pub expected : List Node → List Label
expected [] = (run_completed, none) ∷ []
expected (n ∷ ns) = (node_started, some n.id) ∷ after_start (node_kind n.type_id) n (expected ns)

-- What is still to come.
abbrev pub pending : Task → List Label
pending (sleeping ms n r) = (node_completed, some n.id) ∷ expected r
pending (slept true n r) = (node_completed, some n.id) ∷ expected r
pending (slept false n r) = (node_cancelled, some n.id) ∷ (run_cancelled, none) ∷ []
pending (returned NodeOutcome.completed r) = expected r
pending (returned NodeOutcome.cancelled r) = (run_cancelled, none) ∷ []
pending (returned NodeOutcome.failed r) = (run_failed, none) ∷ []
pending finished = []

abbrev pub labels : Live → List Label
labels l = map label l.run.events

abbrev pub is_cancel : Turn → Bool
is_cancel cancel = true
is_cancel _ = false

module _ (p : Platform) where
  -- One event takes its label over from what is to come.
  labels-append :
      (t : EventType) (n : Option String) (d : Option Json) (l : Live) (rest : List Label)
      → labels (append_event p t n d l) ++ rest ≡ labels l ++ (t, n) ∷ rest
  unfolding append_event new_event
  labels-append t n d l rest =
      ap (λ (x : List Label). x ++ rest) (map-append label l.run.events _)
      ∙ append_assoc (labels l) ((t, n) ∷ []) rest

  -- The labels of a run with those still to come.
  abbrev whole : Live → List Label
  whole l = labels l ++ pending l.task

  dispatch-plan :
      (k : NodeKind) (n : Node) (r : List Node) (l : Live)
      → l.run.aborted ≡ false
      → whole (dispatch p k n r l) ≡ labels l ++ after_start k n (expected r)
  unfolding dispatch complete_node sleep
  dispatch-plan NodeKind.noop n r l a = labels-append node_completed (some n.id) none l (expected r)
  dispatch-plan NodeKind.delay n r l a = ground arith
  dispatch-plan NodeKind.unsupported n r l a = labels-append node_failed (some n.id) _ _ _

  execute_node-plan :
      (n : Node) (r : List Node) (l : Live)
      → l.run.cancel_requested ≡ false
      → l.run.aborted ≡ false
      → whole (execute_node p n r l) ≡ labels l ++ expected (n ∷ r)
  unfolding execute_node append_event
  execute_node-plan n r l c a =
      if_cases (λ (m : Live). whole m ≡ labels l ++ expected (n ∷ r)) l.run.cancel_requested _ _
        (λ stop. cc)
        (λ go.
          dispatch-plan (node_kind n.type_id) n r (append_event p node_started (some n.id) none l) a
          ∙ labels-append node_started (some n.id) none l _)

  run_nodes-plan :
      (r : List Node) (l : Live)
      → l.run.cancel_requested ≡ false
      → l.run.aborted ≡ false
      → whole (run_nodes p r l) ≡ labels l ++ expected r
  unfolding run_nodes finish_completed
  run_nodes-plan [] l c a =
      if_cases (λ (m : Live). whole m ≡ labels l ++ expected []) l.run.cancel_requested _ _
        (λ stop. cc) (λ go. labels-append run_completed none none _ [])
  run_nodes-plan (n ∷ r) l c a =
      if_cases (λ (m : Live). whole m ≡ labels l ++ expected (n ∷ r)) l.run.cancel_requested _ _
        (λ stop. cc) (λ go. execute_node-plan n r l c a)

  resume_task-plan :
      (t : Task) (l : Live)
      → l.task ≡ t
      → l.run.cancel_requested ≡ false
      → l.run.aborted ≡ false
      → whole (resume_task p t l) ≡ whole l
  unfolding resume_task complete_node cancel_node after_node finish_failed finish_cancelled
  resume_task-plan (sleeping ms n r) l e c a = refl
  resume_task-plan (slept true n r) l e c a =
      labels-append node_completed (some n.id) none l (expected r) ∙ rw e
  resume_task-plan (slept false n r) l e c a =
      labels-append node_cancelled (some n.id) none l _ ∙ rw e
  resume_task-plan (returned NodeOutcome.completed r) l e c a = run_nodes-plan r l c a ∙ rw e
  resume_task-plan (returned NodeOutcome.cancelled r) l e c a =
      labels-append run_cancelled none none _ [] ∙ rw e
  resume_task-plan (returned NodeOutcome.failed r) l e c a =
      labels-append run_failed none _ _ [] ∙ rw e
  resume_task-plan finished l e c a = refl

  -- Without a cancel request neither flag is set.
  record Willing (l : Live) : Type 0 where
    willing : l.run.cancel_requested ≡ false
    unaborted : l.run.aborted ≡ false

  turn-Willing : (t : Turn) (l : Live) → is_cancel t ≡ false → Willing l → Willing (turn p t l)
  unfolding turn resume fire_timer connect disconnect
  turn-Willing resumption l u h =
      let same = resume_task-SameFlags p l.task l in
      record { willing = same.requested ∙ h.willing; unaborted = same.aborted ∙ h.unaborted }
  turn-Willing cancel l u h = cc
  turn-Willing _ l u h = record { willing = h.willing; unaborted = h.unaborted }

  turn-plan : (t : Turn) (l : Live) → is_cancel t ≡ false → Willing l → whole (turn p t l) ≡ whole l
  unfolding turn resume fire_timer connect disconnect
  turn-plan timer l u h = ground arith
  turn-plan resumption l u h = resume_task-plan l.task l refl h.willing h.unaborted
  turn-plan cancel l u h = cc
  turn-plan (subscribe x) l u h = refl
  turn-plan (hang_up i) l u h = refl

  schedule-plan :
      (ts : List Turn) (l : Live)
      → any is_cancel ts ≡ false
      → Willing l
      → whole (run_schedule p ts l) ≡ whole l
  unfolding run_schedule
  schedule-plan [] l u h = refl
  schedule-plan (t ∷ ts) l u h =
      let first : is_cancel t ≡ false = ground arith in
      schedule-plan ts (turn p t l) (ground arith) (turn-Willing t l first h)
      ∙ turn-plan t l first h

  run_found-plan :
      (flow : FixtureWorkflow) (l : Live)
      → Willing l
      → labels l ≡ []
      → whole (run_found p (some flow) l) ≡ (run_started, none) ∷ expected flow.nodes
  unfolding run_found append_event new_event
  run_found-plan flow l h e =
      run_nodes-plan flow.nodes
        (append_event p run_started none none
          (record l { run = record l.run { status = RunStatus.running } }))
        h.willing h.unaborted
      ∙ labels-append run_started none none l _
      ∙ ap (λ (x : List Label). x ++ (run_started, none) ∷ expected flow.nodes) e

  run_found-Willing :
      (found : Option FixtureWorkflow) (l : Live) → Willing l → Willing (run_found p found l)
  run_found-Willing found l h =
      let same = run_found-SameFlags p found l in
      record { willing = same.requested ∙ h.willing; unaborted = same.aborted ∙ h.unaborted }

  -- Whatever is scheduled but a cancel request, the log of a new run of a known workflow, with what
  -- its task has still to write, is `run.started` and then the nodes in order, each started and
  -- completed, up to `run.completed`, or up to the first node of an unsupported type, which fails
  -- and ends the run by `run.failed`.
  pub schedule-log :
      (ws : List (String × FixtureWorkflow)) (id w : String) (j : Json) (at : String)
      (flow : FixtureWorkflow) (ts : List Turn)
      → lookup w ws ≡ some flow
      → any is_cancel ts ≡ false
      → let l = run_schedule p ts (start p ws (new_run id w j at)) in
        labels l ++ pending l.task ≡ (run_started, none) ∷ expected flow.nodes
  unfolding start run_workflow
  schedule-log ws id w j at flow ts found u =
      let l = fresh (new_run id w j at) in
      let idle : Willing l = record { willing = refl; unaborted = refl } in
      schedule-plan ts (run_found p (lookup w ws) l) u (run_found-Willing (lookup w ws) l idle)
      ∙ ap (λ (o : Option FixtureWorkflow). whole (run_found p o l)) found
      ∙ run_found-plan flow l idle refl
