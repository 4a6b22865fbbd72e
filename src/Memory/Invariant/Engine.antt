-- ===== src/Memory/Invariant/Engine.antt =====
-- The turns of the execution keep the invariant: `executeNode`, `runWorkflow`.
use wop.Prelude.{
  ◌≡◌, refl, true, false, Option, none, some, List, [], ◌∷◌, arith, if◌then◌else◌, if_cases,
}
use wop.Json.{Json, Num}
use wop.Platform.{Platform}
use wop.Workflow.{
  Node, FixtureWorkflow, NodeOutcome, NodeKind, node_kind, RunStatus, EventType, is_terminal,
  is_final_type, run_completed, run_failed, run_cancelled, node_completed, node_cancelled,
  node_failed, run_started,
}
use wop.Memory.Run.{RunError, sleeping, slept, returned, finished, Live, append_event}
use wop.Memory.Engine.{
  complete_node, cancel_node, sleep, dispatch, execute_node, finish_cancelled, finish_completed,
  finish_failed, run_nodes, after_node, run_found,
}
use wop.Memory.Log.{append_event-LogInv}
use wop.Memory.Invariant.{Inv, Busy, closing, suspend-Inv, append-Busy}

module _ (p : Platform) where
  pub complete_node-Inv :
      (n : Node) (r : List Node) (l : Live) → Busy p l → Inv p (complete_node p n r l)
  unfolding complete_node
  complete_node-Inv n r l b =
      suspend-Inv p (append_event p node_completed (some n.id) none l)
        (returned NodeOutcome.completed r) (append-Busy p _ _ _ l refl b) refl (λ e. cc)

  pub cancel_node-Inv :
      (n : Node) (r : List Node) (l : Live) → Busy p l → Inv p (cancel_node p n r l)
  unfolding cancel_node
  cancel_node-Inv n r l b =
      suspend-Inv p (append_event p node_cancelled (some n.id) none l)
        (returned NodeOutcome.cancelled r) (append-Busy p _ _ _ l refl b) refl (λ e. cc)

  pub sleep-Inv :
      (ms : Num) (n : Node) (r : List Node) (l : Live) → Busy p l → Inv p (sleep p ms n r l)
  unfolding sleep
  sleep-Inv ms n r l b =
      suspend-Inv p l (if l.run.aborted then slept false n r else sleeping ms n r) b (ground arith)
        (λ e. ground (arith, b.signal))

  pub set_error-Busy :
      (x : RunError) (l : Live)
      → Busy p l
      → Busy p (record l { run = record l.run { error = some x } })
  set_error-Busy x l b = record {
    log = b.log;
    active = b.active;
    ended = b.ended;
    signal = b.signal;
  }

  pub dispatch-Inv :
      (k : NodeKind) (n : Node) (r : List Node) (l : Live) → Busy p l → Inv p (dispatch p k n r l)
  unfolding dispatch
  dispatch-Inv NodeKind.noop n r l b = complete_node-Inv n r l b
  dispatch-Inv NodeKind.delay n r l b = sleep-Inv _ n r l b
  dispatch-Inv NodeKind.unsupported n r l b =
      suspend-Inv p _ (returned NodeOutcome.failed r)
        (append-Busy p node_failed _ _ _ refl (set_error-Busy _ l b)) refl (λ e. cc)

  pub execute_node-Inv :
      (n : Node) (r : List Node) (l : Live) → Busy p l → Inv p (execute_node p n r l)
  unfolding execute_node
  execute_node-Inv n r l b =
      if_cases (Inv p) l.run.cancel_requested _ _ (λ stop. cancel_node-Inv n r l b)
        (λ go. dispatch-Inv (node_kind n.type_id) n r _ (append-Busy p _ _ _ l refl b))

  -- The end of a run: the status, its event and the end time are set in one turn.
  pub finish-Inv :
      (s : RunStatus) (t : EventType) (d : Option Json) (l : Live)
      → is_terminal s ≡ true
      → closing s ≡ some t
      → is_final_type t ≡ true
      → Busy p l
      → let m = append_event p t none d (record l { run = record l.run { status = s } }) in
        Inv p (record m {
          run = record m.run { ended_at = some (p.ended_time m.run.run_id) };
          task = finished;
        })
  unfolding append_event
  finish-Inv s t d l terminal same final b = record {
    log = rw same (
        rw final at
          (append_event-LogInv p t none d (record l { run = record l.run { status = s } }) b.log));
    done = rw terminal;
    ended = rw terminal;
    signal = b.signal;
    awake = λ e. cc;
  }

  pub finish_cancelled-Inv : (l : Live) → Busy p l → Inv p (finish_cancelled p l)
  unfolding finish_cancelled
  finish_cancelled-Inv l b = finish-Inv RunStatus.cancelled run_cancelled none l refl refl refl b

  pub finish_completed-Inv : (l : Live) → Busy p l → Inv p (finish_completed p l)
  unfolding finish_completed
  finish_completed-Inv l b = finish-Inv RunStatus.completed run_completed none l refl refl refl b

  pub finish_failed-Inv : (l : Live) → Busy p l → Inv p (finish_failed p l)
  unfolding finish_failed
  finish_failed-Inv l b = finish-Inv RunStatus.failed run_failed _ l refl refl refl b

  pub run_nodes-Inv : (ns : List Node) (l : Live) → Busy p l → Inv p (run_nodes p ns l)
  unfolding run_nodes
  run_nodes-Inv [] l b =
      if_cases (Inv p) l.run.cancel_requested _ _ (λ stop. finish_cancelled-Inv l b)
        (λ go. finish_completed-Inv l b)
  run_nodes-Inv (n ∷ ns) l b =
      if_cases (Inv p) l.run.cancel_requested _ _ (λ stop. finish_cancelled-Inv l b)
        (λ go. execute_node-Inv n ns l b)

  pub after_node-Inv :
      (o : NodeOutcome) (ns : List Node) (l : Live) → Busy p l → Inv p (after_node p o ns l)
  unfolding after_node
  after_node-Inv NodeOutcome.failed ns l b = finish_failed-Inv l b
  after_node-Inv NodeOutcome.cancelled ns l b = finish_cancelled-Inv l b
  after_node-Inv NodeOutcome.completed ns l b = run_nodes-Inv ns l b

  pub run_found-Inv :
      (found : Option FixtureWorkflow) (l : Live) → Busy p l → Inv p (run_found p found l)
  unfolding run_found
  run_found-Inv none l b = finish_failed-Inv _ (set_error-Busy _ l b)
  run_found-Inv (some flow) l b = run_nodes-Inv flow.nodes _ (
      append-Busy p run_started none none _ refl
        (record { log = b.log; active = refl; ended = b.ended; signal = b.signal }))
