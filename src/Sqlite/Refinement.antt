-- ===== src/Sqlite/Refinement.antt =====
-- The SQLite host executes a run as the in-memory host does: `executeNode`, `runWorkflow` and the cancel
-- requests of examples/hosts/sqlite/src/server.ts and of examples/hosts/in-memory/src/server.ts.
use wop.Prelude.{
  ◌≡◌, refl, ap, subst, ◌∙◌, Bool, true, false, Option, none, some, List, [], ◌∷◌, map, lookup,
  if◌then◌else◌,
}
use wop.Json.{Json, Num, nat_num, str, object}
use wop.Platform.{Platform}
use wop.Workflow.{
  Node, NodeOutcome, NodeKind, node_kind, EventType, RunStatus, is_terminal, run_completed,
  run_failed, run_cancelled, node_started, node_completed, node_failed, node_cancelled,
  resolve_input_as_number,
}
use wop.Memory.Run.{Run, Live}
use wop.Memory.Run as MemoryRun
use wop.Memory.Engine as MemoryEngine
use wop.Sqlite.Rows.{append_event}
use wop.Sqlite.Engine
use wop.Sqlite.Engine.{
  Process, Task, Execution, is_finished, is_cancelling, unstarted, is_run_started,
}
use wop.Sqlite.Simulation.{
  Mid, Alike, row_mark, event_mark, plain_task, append-Mid, append-log, tasked-Alike, Alike-Mid,
  end_run-Alike,
}

-- Two conditionals with the same test.
pub if_both {ℓ κ ι} :
    {A : Type ℓ} {B : Type κ} (R : A → B → Type ι) (b b' : Bool) (x y : A) (x' y' : B)
    → b' ≡ b
    → (b ≡ true → R x x')
    → (b ≡ false → R y y')
    → R (if b then x else y) (if b' then x' else y')
if_both R true true x y x' y' e t f = t refl
if_both R true false x y x' y' e t f = cc
if_both R false true x y x' y' e t f = cc
if_both R false false x y x' y' e t f = f refl

module _ (p : Platform) (me : Process) where
  abbrev R : Live → Execution → Type 0
  R l x = Alike p me l x

  abbrev M : Live → Execution → Type 0
  M l x = Mid p me l x

  is_cancelling-same :
      (l : Live) (x : Execution) → M l x → is_cancelling x.row.status ≡ l.run.cancel_requested
  is_cancelling-same l x m = ap is_cancelling m.status ∙ go l.run.cancel_requested
    where
      go : (b : Bool) → is_cancelling (if b then RunStatus.cancelling else RunStatus.running) ≡ b
      go true = refl
      go false = refl

  -- The closing event, and the end.
  close-Alike :
      (type : EventType) (status : RunStatus) (error : Option MemoryRun.RunError)
      (a b : Option Json) (l : Live) (x : Execution)
      → is_terminal status ≡ true
      → x.row.run_id ≡ l.run.run_id
      → map row_mark x.row.events ≡ map event_mark l.run.events
      → R
          (MemoryEngine.end_run p (
            MemoryRun.append_event p type none b
              (record l { run = record l.run { status = status } })))
          (Engine.end_run p me status error (Engine.append p me type none a x))
  unfolding append_event MemoryRun.append_event
  close-Alike type status error a b l x closed own log =
      let l' = record l { run = record l.run { status = status } } in
      end_run-Alike p me status error (MemoryRun.append_event p type none b l')
        (Engine.append p me type none a x) closed refl own
        (append-log p me type none a b l' x own log)

  finish_cancelled-Alike :
      (l : Live) (x : Execution)
      → M l x
      → R (MemoryEngine.finish_cancelled p l) (Engine.finish_cancelled p me x)
  unfolding Engine.finish_cancelled MemoryEngine.finish_cancelled
  finish_cancelled-Alike l x m =
      close-Alike run_cancelled RunStatus.cancelled none none none l x refl m.run_id m.log

  finish_completed-Alike :
      (l : Live) (x : Execution)
      → M l x
      → R (MemoryEngine.finish_completed p l) (Engine.finish_completed p me x)
  unfolding Engine.finish_completed MemoryEngine.finish_completed
  finish_completed-Alike l x m =
      close-Alike run_completed RunStatus.completed none none none l x refl m.run_id m.log

  pub finish_failed-Alike :
      (error : MemoryRun.RunError) (l : Live) (x : Execution)
      → x.row.run_id ≡ l.run.run_id
      → map row_mark x.row.events ≡ map event_mark l.run.events
      → R (MemoryEngine.finish_failed p l) (Engine.finish_failed p me error x)
  unfolding Engine.finish_failed MemoryEngine.finish_failed
  finish_failed-Alike error l x own log =
      close-Alike run_failed RunStatus.failed (some error) (some (MemoryEngine.error_json error))
        (MemoryEngine.error_data l.run.error) l x refl own log

  complete_node-Alike :
      (n : Node) (r : List Node) (l : Live) (x : Execution)
      → M l x
      → R (MemoryEngine.complete_node p n r l) (Engine.complete_node p me n r x)
  unfolding Engine.complete_node MemoryEngine.complete_node
  complete_node-Alike n r l x m =
      tasked-Alike p me (Task.returned NodeOutcome.completed n r)
        (MemoryRun.append_event p node_completed (some n.id) none l)
        (Engine.append p me node_completed (some n.id) none x) refl
        (append-Mid p me node_completed (some n.id) none none l x m)

  cancel_node-Alike :
      (n : Node) (r : List Node) (l : Live) (x : Execution)
      → M l x
      → R (MemoryEngine.cancel_node p n r l) (Engine.cancel_node p me n r x)
  unfolding Engine.cancel_node MemoryEngine.cancel_node
  cancel_node-Alike n r l x m =
      tasked-Alike p me (Task.returned NodeOutcome.cancelled n r)
        (MemoryRun.append_event p node_cancelled (some n.id) none l)
        (Engine.append p me node_cancelled (some n.id) none x) refl
        (append-Mid p me node_cancelled (some n.id) none none l x m)

  sleep-Alike :
      (ms : Num) (n : Node) (r : List Node) (l : Live) (x : Execution)
      → M l x
      → R (MemoryEngine.sleep p ms n r l) (Engine.sleep p me ms n r x)
  unfolding Engine.sleep MemoryEngine.sleep
  sleep-Alike ms n r l x m = go x.aborted l.run.aborted m.aborted
    where
      go :
          (b' b : Bool)
          → b' ≡ b
          → R
              (record l {
                task = if b then MemoryRun.Task.slept false n r else MemoryRun.Task.sleeping ms n r;
              })
              (record x { task = if b' then Task.slept false n r else Task.sleeping ms n r })
      go true true e = tasked-Alike p me (Task.slept false n r) l x refl m
      go true false e = cc
      go false true e = cc
      go false false e = tasked-Alike p me (Task.sleeping ms n r) l x refl m

  abbrev unsupported_data : Node → Option Json
  unsupported_data n =
      some (object (("code", str "unsupported_node_type") ∷ ("typeId", str n.type_id) ∷ []))

  dispatch-Alike :
      (k : NodeKind) (n : Node) (r : List Node) (l : Live) (x : Execution)
      → M l x
      → R (MemoryEngine.dispatch p k n r l) (Engine.dispatch p me k n r x)
  unfolding Engine.dispatch MemoryEngine.dispatch
  dispatch-Alike NodeKind.noop n r l x m = complete_node-Alike n r l x m
  dispatch-Alike NodeKind.delay n r l x m =
      subst
        (λ (v : Json).
          R
            (MemoryEngine.sleep p
              (resolve_input_as_number p (lookup "delayMs" n.inputs) v (nat_num 100)) n r l)
            (Engine.dispatch p me NodeKind.delay n r x))
        m.inputs (sleep-Alike _ n r l x m)
  dispatch-Alike NodeKind.unsupported n r l x m =
      let l' = record l {
        run = record l.run { error = some (MemoryEngine.unsupported_node_type n) };
      } in
      tasked-Alike p me (Task.returned NodeOutcome.failed n r)
        (MemoryRun.append_event p node_failed (some n.id) (unsupported_data n) l')
        (Engine.append p me node_failed (some n.id) (unsupported_data n) x) refl
        (append-Mid p me node_failed (some n.id) (unsupported_data n) (unsupported_data n) l' x
          (record {
            run_id = m.run_id;
            log = m.log;
            running = m.running;
            status = m.status;
            ended_at = m.ended_at;
            inputs = m.inputs;
            aborted = m.aborted;
            registered = m.registered;
          }))

  execute_node-Alike :
      (n : Node) (r : List Node) (l : Live) (x : Execution)
      → M l x
      → R (MemoryEngine.execute_node p n r l) (Engine.execute_node p me n r x)
  unfolding Engine.execute_node MemoryEngine.execute_node
  execute_node-Alike n r l x m =
      if_both R l.run.cancel_requested (is_cancelling x.row.status) _ _ _ _
        (is_cancelling-same l x m) (λ e. cancel_node-Alike n r l x m)
        (λ e.
          dispatch-Alike (node_kind n.type_id) n r _ _
            (append-Mid p me node_started (some n.id) none none l x m))

  pub run_nodes-Alike :
      (ns : List Node) (l : Live) (x : Execution)
      → M l x
      → R (MemoryEngine.run_nodes p ns l) (Engine.run_nodes p me ns x)
  unfolding Engine.run_nodes MemoryEngine.run_nodes
  run_nodes-Alike [] l x m =
      if_both R l.run.cancel_requested (is_cancelling x.row.status) _ _ _ _
        (is_cancelling-same l x m) (λ e. finish_cancelled-Alike l x m)
        (λ e. finish_completed-Alike l x m)
  run_nodes-Alike (n ∷ r) l x m =
      if_both R l.run.cancel_requested (is_cancelling x.row.status) _ _ _ _
        (is_cancelling-same l x m) (λ e. finish_cancelled-Alike l x m)
        (λ e. execute_node-Alike n r l x m)

  after_node-Alike :
      (o : NodeOutcome) (n : Node) (r : List Node) (l : Live) (x : Execution)
      → M l x
      → R (MemoryEngine.after_node p o r l) (Engine.after_node p me o n r x)
  unfolding Engine.after_node MemoryEngine.after_node
  after_node-Alike NodeOutcome.completed n r l x m = run_nodes-Alike r l x m
  after_node-Alike NodeOutcome.cancelled n r l x m = finish_cancelled-Alike l x m
  after_node-Alike NodeOutcome.failed n r l x m = finish_failed-Alike _ l x m.run_id m.log

  pub resume_task-Alike :
      (t : Task) (l : Live) (x : Execution)
      → x.task ≡ t
      → R l x
      → R (MemoryEngine.resume_task p (plain_task t) l) (Engine.resume_task p me t x)
  unfolding Engine.resume_task MemoryEngine.resume_task
  resume_task-Alike (Task.sleeping ms n r) l x e a = a
  resume_task-Alike (Task.slept true n r) l x e a =
      complete_node-Alike n r l x (Alike-Mid p me l x (rw e refl) a)
  resume_task-Alike (Task.slept false n r) l x e a =
      cancel_node-Alike n r l x (Alike-Mid p me l x (rw e refl) a)
  resume_task-Alike (Task.returned o n r) l x e a =
      after_node-Alike o n r l x (Alike-Mid p me l x (rw e refl) a)
  resume_task-Alike Task.finished l x e a = a
