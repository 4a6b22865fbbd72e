-- ===== src/Memory/Cancel.antt =====
-- What follows a cancel request to a run of the in-memory host (`handleCancelRun` and the tests of
-- `cancelRequested` in `executeNode` and `runWorkflow`).
use wop.Prelude.{
  ℕ, ◌+◌, ◌≡◌, refl, ◌∙◌, ◌⊎◌, inl, inr, Bool, true, false, Option, some, none, List, [], ◌∷◌, ◌++◌,
  String, arith, if◌then◌else◌, if_cases, Bool-cases,
}
use wop.Json.{Json}
use wop.Platform.{Platform}
use wop.Workflow.{
  Node, NodeOutcome, RunStatus, EventType, node_started, node_completed, node_cancelled,
  run_cancelled,
}
use wop.Memory.Run.{
  RunEvent, Task, sleeping, slept, returned, finished, is_finished, Live, append_event, new_event,
}
use wop.Memory.Engine.{
  complete_node, cancel_node, finish_cancelled, run_nodes, after_node, resume_task, resume,
}
use wop.Memory.Turns.{
  fire_timer, request_cancel, connect, disconnect, Turn, timer, resumption, cancel, subscribe,
  hang_up, turn, run_schedule,
}
use wop.Memory.Invariant.{Inv, is_sleeping}

abbrev is_start : EventType → Bool
is_start node_started = true
is_start _ = false

-- The number of nodes that were started.
abbrev pub starts : List RunEvent → ℕ
starts [] = 0
starts (e ∷ es) = (if is_start e.type then 1 else 0) + starts es

starts-append :
    (es : List RunEvent) (e : RunEvent)
    → starts (es ++ e ∷ []) ≡ starts es + (if is_start e.type then 1 else 0)
starts-append [] e = omega arith
starts-append (x ∷ es) e = omega (arith, starts-append es e)

-- A node has failed, and `runWorkflow` has still to see it.
abbrev pub is_failing : Task → Bool
is_failing (returned NodeOutcome.failed r) = true
is_failing _ = false

-- A run that is on its way to `cancelled`, or there; `n` nodes were started.
record Stopping (n : ℕ) (l : Live) : Type 0 where
  requested : l.run.cancel_requested ≡ true
  awake : is_sleeping l.task ≡ false
  unfailed : is_failing l.task ≡ false
  started : starts l.run.events ≡ n
  verdict : is_finished l.task ≡ true → l.run.status ≡ RunStatus.cancelled

module _ (p : Platform) where
  starts-append_event :
      (t : EventType) (x : Option String) (d : Option Json) (l : Live)
      → is_start t ≡ false
      → starts (append_event p t x d l).run.events ≡ starts l.run.events
  unfolding append_event new_event
  starts-append_event t x d l h =
      ground (arith, starts-append l.run.events (new_event p l.run t x d))

  finish_cancelled-Stopping : (n : ℕ) (l : Live) → Stopping n l → Stopping n (finish_cancelled p l)
  unfolding finish_cancelled append_event new_event
  finish_cancelled-Stopping n l h = record {
    requested = h.requested;
    awake = refl;
    unfailed = refl;
    started = starts-append_event run_cancelled none none l refl ∙ h.started;
    verdict = λ e. refl;
  }

  run_nodes-Stopping :
      (r : List Node) (n : ℕ) (l : Live) → Stopping n l → Stopping n (run_nodes p r l)
  unfolding run_nodes
  run_nodes-Stopping [] n l h =
      if_cases (Stopping n) l.run.cancel_requested _ _ (λ e. finish_cancelled-Stopping n l h)
        (λ e. absurd (cc (h.requested)))
  run_nodes-Stopping (x ∷ r) n l h =
      if_cases (Stopping n) l.run.cancel_requested _ _ (λ e. finish_cancelled-Stopping n l h)
        (λ e. absurd (cc (h.requested)))

  resume_task-Stopping :
      (t : Task) (n : ℕ) (l : Live) → l.task ≡ t → Stopping n l → Stopping n (resume_task p t l)
  unfolding resume_task complete_node cancel_node after_node append_event new_event
  resume_task-Stopping (slept true x r) n l e h = record {
    requested = h.requested;
    awake = refl;
    unfailed = refl;
    started = starts-append_event node_completed (some x.id) none l refl ∙ h.started;
    verdict = λ e. cc;
  }
  resume_task-Stopping (slept false x r) n l e h = record {
    requested = h.requested;
    awake = refl;
    unfailed = refl;
    started = starts-append_event node_cancelled (some x.id) none l refl ∙ h.started;
    verdict = λ e. cc;
  }
  resume_task-Stopping (returned NodeOutcome.completed r) n l e h = run_nodes-Stopping r n l h
  resume_task-Stopping (returned NodeOutcome.cancelled r) n l e h = finish_cancelled-Stopping n l h
  resume_task-Stopping (returned NodeOutcome.failed r) n l e h = absurd (ground (arith, h.unfailed))
  resume_task-Stopping (sleeping ms x r) n l e h = h
  resume_task-Stopping finished n l e h = h

  turn-Stopping : (t : Turn) (n : ℕ) (l : Live) → Stopping n l → Stopping n (turn p t l)
  unfolding turn resume fire_timer request_cancel connect disconnect
  turn-Stopping resumption n l h = resume_task-Stopping l.task n l refl h
  turn-Stopping timer n l h = ground arith
  turn-Stopping cancel n l h = ground arith
  turn-Stopping (subscribe x) n l h = ground arith
  turn-Stopping (hang_up i) n l h = ground arith

  schedule-Stopping :
      (ts : List Turn) (n : ℕ) (l : Live) → Stopping n l → Stopping n (run_schedule p ts l)
  unfolding run_schedule
  schedule-Stopping [] n l h = h
  schedule-Stopping (t ∷ ts) n l h = schedule-Stopping ts n (turn p t l) (turn-Stopping t n l h)

  request_cancel-Stopping :
      (l : Live)
      → Inv p l
      → is_finished l.task ≡ false
      → is_failing l.task ≡ false
      → Stopping (starts l.run.events) (request_cancel l)
  unfolding request_cancel
  request_cancel-Stopping l h open_end unfailed = ground (arith, h.done)

  -- After a cancel request to a run that meets the invariant and has neither ended nor just failed at
  -- a node, whatever is scheduled, no node is started any more, and if the run ends it ends as
  -- `cancelled`.
  pub cancel_stops :
      (l : Live) (ts : List Turn)
      → Inv p l
      → is_finished l.task ≡ false
      → is_failing l.task ≡ false
      → let m = run_schedule p ts (request_cancel l) in
        (starts m.run.events ≡ starts l.run.events)
        × ((m.run.status ≡ RunStatus.cancelled) ⊎ (is_finished m.task ≡ false))
  cancel_stops l ts h open_end unfailed =
      let s =
        schedule-Stopping ts (starts l.run.events) (request_cancel l)
          (request_cancel-Stopping l h open_end unfailed) in
      (
        s.started,
        elim (Bool-cases (is_finished (run_schedule p ts (request_cancel l)).task)) [
          | inl e ↦ inl (s.verdict e)
          | inr e ↦ inr e
        ],
      )
