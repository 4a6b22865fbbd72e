-- ===== src/Memory/History.antt =====
-- The log of a run of the in-memory host only grows, and a run that has ended does not change.
use wop.Prelude.{
  ◌≡◌, refl, sym, ap, ◌∙◌, true, false, Option, some, none, List, [], ◌∷◌, ◌++◌, String, append-nil,
  append_assoc, arith, if_cases,
}
use wop.Json.{Json}
use wop.Platform.{Platform}
use wop.Workflow.{Node, NodeOutcome, NodeKind, node_kind, is_terminal, EventType, node_started}
use wop.Memory.Run.{
  RunEvent, Task, sleeping, slept, returned, finished, is_finished, Live, append_event, new_event,
}
use wop.Memory.Engine.{
  complete_node, cancel_node, sleep, dispatch, execute_node, finish_cancelled, finish_completed,
  finish_failed, run_nodes, after_node, resume_task, resume,
}
use wop.Memory.Turns.{
  fire_timer, request_cancel, connect, disconnect, Turn, resumption, cancel, turn, run_schedule,
}
use wop.Memory.Invariant.{Inv}
use wop.Memory.Invariant.Schedules.{turn-Inv}

-- The second log begins with the first.
abbrev pub Extends : List RunEvent → List RunEvent → Type 0
Extends es fs = (more : List RunEvent) × (fs ≡ es ++ more)

Extends-refl : (es : List RunEvent) → Extends es es
Extends-refl es = ([], sym (append-nil es))

Extends-trans : (es fs gs : List RunEvent) → Extends es fs → Extends fs gs → Extends es gs
Extends-trans es fs gs (m, h) (n, k) =
    (m ++ n, k ∙ ap (λ (x : List RunEvent). x ++ n) h ∙ append_assoc es m n)

module _ (p : Platform) where
  append-Extends :
      (t : EventType) (x : Option String) (d : Option Json) (l : Live)
      → Extends l.run.events (append_event p t x d l).run.events
  unfolding append_event
  append-Extends t x d l = (new_event p l.run t x d ∷ [], refl)

  dispatch-Extends :
      (k : NodeKind) (n : Node) (r : List Node) (l : Live)
      → Extends l.run.events (dispatch p k n r l).run.events
  unfolding dispatch complete_node sleep append_event
  dispatch-Extends NodeKind.noop n r l = (_, refl)
  dispatch-Extends NodeKind.delay n r l = Extends-refl l.run.events
  dispatch-Extends NodeKind.unsupported n r l = (_, refl)

  execute_node-Extends :
      (n : Node) (r : List Node) (l : Live) → Extends l.run.events (execute_node p n r l).run.events
  unfolding execute_node cancel_node
  execute_node-Extends n r l =
      if_cases (λ (m : Live). Extends l.run.events m.run.events) l.run.cancel_requested _ _
        (λ stop. append-Extends _ _ _ l)
        (λ go.
          let m = append_event p node_started (some n.id) none l in
          Extends-trans l.run.events m.run.events _ (append-Extends _ _ _ l)
            (dispatch-Extends (node_kind n.type_id) n r m))

  run_nodes-Extends : (r : List Node) (l : Live) → Extends l.run.events (run_nodes p r l).run.events
  unfolding run_nodes finish_cancelled finish_completed append_event
  run_nodes-Extends [] l =
      if_cases (λ (m : Live). Extends l.run.events m.run.events) l.run.cancel_requested _ _
        (λ stop. (_, refl)) (λ go. (_, refl))
  run_nodes-Extends (n ∷ r) l =
      if_cases (λ (m : Live). Extends l.run.events m.run.events) l.run.cancel_requested _ _
        (λ stop. (_, refl)) (λ go. execute_node-Extends n r l)

  resume_task-Extends : (t : Task) (l : Live) → Extends l.run.events (resume_task p t l).run.events
  unfolding resume_task complete_node cancel_node after_node finish_failed finish_cancelled
      append_event
  resume_task-Extends (slept true n r) l = (_, refl)
  resume_task-Extends (slept false n r) l = (_, refl)
  resume_task-Extends (returned NodeOutcome.completed r) l = run_nodes-Extends r l
  resume_task-Extends (returned NodeOutcome.cancelled r) l = (_, refl)
  resume_task-Extends (returned NodeOutcome.failed r) l = (_, refl)
  resume_task-Extends (sleeping ms n r) l = Extends-refl l.run.events
  resume_task-Extends finished l = Extends-refl l.run.events

  turn-Extends : (t : Turn) (l : Live) → Extends l.run.events (turn p t l).run.events
  unfolding turn resume fire_timer request_cancel connect disconnect
  turn-Extends resumption l = resume_task-Extends l.task l
  turn-Extends cancel l =
      if_cases (λ (m : Live). Extends l.run.events m.run.events) (is_terminal l.run.status) _ _
        (λ e. Extends-refl l.run.events) (λ e. Extends-refl l.run.events)
  turn-Extends _ l = Extends-refl l.run.events

  -- Whatever is scheduled, the log keeps its events and their order: later ones come behind them.
  pub schedule-Extends :
      (ts : List Turn) (l : Live) → Extends l.run.events (run_schedule p ts l).run.events
  unfolding run_schedule
  schedule-Extends [] l = Extends-refl l.run.events
  schedule-Extends (t ∷ ts) l =
      Extends-trans l.run.events (turn p t l).run.events _ (turn-Extends t l)
        (schedule-Extends ts (turn p t l))

  turn_ended :
      (t : Turn) (l : Live)
      → is_finished l.task ≡ true
      → is_terminal l.run.status ≡ true
      → ((turn p t l).run ≡ l.run) × (is_finished (turn p t l).task ≡ true)
  unfolding turn resume resume_task fire_timer request_cancel connect disconnect
  turn_ended t l e d = ground arith

  -- Once a run that meets the invariant has ended, nothing that is scheduled changes it.
  pub schedule_ended :
      (ts : List Turn) (l : Live)
      → Inv p l
      → is_finished l.task ≡ true
      → (run_schedule p ts l).run ≡ l.run
  unfolding run_schedule
  schedule_ended [] l h e = refl
  schedule_ended (t ∷ ts) l h e =
      let (same, still) = turn_ended t l e (sym h.done ∙ e) in
      schedule_ended ts (turn p t l) (turn-Inv p t l h) still ∙ same
