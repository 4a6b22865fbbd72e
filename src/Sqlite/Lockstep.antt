-- ===== src/Sqlite/Lockstep.antt =====
-- Schedules of the SQLite host and of the in-memory host that go the same way: the turns of
-- examples/hosts/sqlite/src/server.ts beside those of examples/hosts/in-memory/src/server.ts.
use wop.Prelude.{
  ℕ, String, ◌≡◌, refl, sym, ap, subst, ◌∙◌, Bool, true, false, Option, none, some, List, [], ◌∷◌,
  map, all, lookup, arith, if◌then◌else◌, any, if_cases,
}
use wop.Platform.{Platform}
use wop.Workflow.{FixtureWorkflow, RunStatus, run_started}
use wop.Memory.Run.{Run, Live}
use wop.Memory.Run as MemoryRun
use wop.Memory.Engine as MemoryEngine
use wop.Memory.Turns as MemoryTurns
use wop.Sqlite.Rows.{RunRow, update_run_status}
use wop.Sqlite.Engine
use wop.Sqlite.Engine.{Process, Task, Execution, is_finished, unstarted, is_run_started}
use wop.Sqlite.Turns.{
  Turn, timer, resumption, cancel_here, subscribe, hang_up, beat, elsewhere, turn, run_schedule,
}
use wop.Sqlite.Connections.{connect, disconnect}
use wop.Sqlite.Simulation.{Mid, Alike, row_mark, event_mark, append-Mid}
use wop.Sqlite.Refinement.{run_nodes-Alike, resume_task-Alike, finish_failed-Alike}
use wop.Sqlite.Claims.{heartbeat}
use wop.Sqlite.Alongside.{is_undisturbed, kept, timer-Alike, cancel-Alike, own-Alike}

-- The turns of the in-memory host that correspond; it has no claims, and the event streams do not matter
-- here.
abbrev pub plain_schedule : List Turn → List MemoryTurns.Turn
plain_schedule [] = []
plain_schedule (timer ∷ ts) = MemoryTurns.Turn.timer ∷ plain_schedule ts
plain_schedule (resumption ∷ ts) = MemoryTurns.Turn.resumption ∷ plain_schedule ts
plain_schedule (cancel_here ∷ ts) = MemoryTurns.Turn.cancel ∷ plain_schedule ts
plain_schedule (subscribe n ∷ ts) = plain_schedule ts
plain_schedule (hang_up i ∷ ts) = plain_schedule ts
plain_schedule (beat now ∷ ts) = plain_schedule ts
plain_schedule (elsewhere s ∷ ts) = plain_schedule ts

module _ (p : Platform) (me : Process) where
  abbrev R : Live → Execution → Type 0
  R l x = Alike p me l x

  turns-Alike :
      (ttl : ℕ) (ts : List Turn) (l : Live) (x : Execution)
      → all is_undisturbed ts ≡ true
      → R l x
      → R (MemoryTurns.run_schedule p (plain_schedule ts) l) (run_schedule p me ttl ts x)
  unfolding run_schedule turn MemoryTurns.run_schedule MemoryTurns.turn MemoryEngine.resume
      Engine.resume connect disconnect
  turns-Alike ttl [] l x q a = a
  turns-Alike ttl (timer ∷ ts) l x q a =
      turns-Alike ttl ts (MemoryTurns.fire_timer l) (Engine.fire_timer x) q (timer-Alike p me l x a)
  turns-Alike ttl (resumption ∷ ts) l x q a =
      turns-Alike ttl ts (MemoryEngine.resume p l) (Engine.resume p me x) q (
        subst (λ t. R (MemoryEngine.resume_task p t l) (Engine.resume_task p me x.task x))
          (sym a.task) (resume_task-Alike p me x.task l x refl a))
  turns-Alike ttl (cancel_here ∷ ts) l x q a =
      turns-Alike ttl ts (MemoryTurns.request_cancel l) (Engine.request_cancel x) q
        (cancel-Alike p me l x a)
  turns-Alike ttl (subscribe n ∷ ts) l x q a =
      turns-Alike ttl ts l (turn p me ttl (subscribe n) x) q
        (kept p me l x _ refl refl refl refl refl refl refl refl a)
  turns-Alike ttl (hang_up i ∷ ts) l x q a =
      turns-Alike ttl ts l (turn p me ttl (hang_up i) x) q
        (kept p me l x _ refl refl refl refl refl refl refl refl a)
  turns-Alike ttl (beat now ∷ ts) l x q a = turns-Alike ttl ts l (turn p me ttl (beat now) x) q (
      if_cases (R l) x.registered _ _ (λ beats. own-Alike p me ttl (heartbeat me.id now) l x refl a)
        (λ stopped. a))
  turns-Alike ttl (elsewhere s ∷ ts) l x q a =
      turns-Alike ttl ts l (turn p me ttl (elsewhere s) x) (ground (arith, q))
        (own-Alike p me ttl s l x (ground (arith, q)) a)

  -- A new run, and a row for it that no process has executed.
  pub record Matches (run : Run) (row : RunRow) : Type 0 where
    pub run_id : row.run_id ≡ run.run_id
    pub workflow_id : row.workflow_id ≡ run.workflow_id
    pub inputs : p.json_parse row.inputs_json ≡ some run.inputs
    pub unwritten : (row.events ≡ []) × (run.events ≡ [])
    pub uncancelled : (run.cancel_requested ≡ false) × (run.aborted ≡ false)
    pub unended : run.ended_at ≡ none

  announce-Mid :
      (l : Live) (x : Execution)
      → any is_run_started x.row.events ≡ false
      → Mid p me l (record x { row = update_run_status RunStatus.running none none x.row })
      → Mid p me (MemoryRun.append_event p run_started none none l) (Engine.announce p me x)
  unfolding Engine.announce
  announce-Mid l x first m =
      let running = record x { row = update_run_status RunStatus.running none none x.row } in
      if_cases (Mid p me (MemoryRun.append_event p run_started none none l))
        (any is_run_started x.row.events) _ _ (λ e. absurd (ground (arith, e, first)))
        (λ e. append-Mid p me run_started none none none l running m)

  found-Alike :
      (found : Option FixtureWorkflow) (run : Run) (row : RunRow)
      → Matches run row
      → R (MemoryEngine.run_found p found (MemoryTurns.fresh run)) (Engine.run_found p me found row)
  unfolding Engine.run_found MemoryEngine.run_found update_run_status
  found-Alike none run row m =
      let log = ap (map row_mark) m.unwritten.0 ∙ sym (ap (map event_mark) m.unwritten.1) in
      let lost = record run { error = some (MemoryEngine.workflow_not_found run) } in
      finish_failed-Alike p me Engine.workflow_not_found (MemoryTurns.fresh lost)
        (unstarted p me row) m.run_id log
  found-Alike (some workflow) run row m =
      let log = ap (map row_mark) m.unwritten.0 ∙ sym (ap (map event_mark) m.unwritten.1) in
      let l = MemoryTurns.fresh (record run { status = RunStatus.running }) in
      let x = record (unstarted p me row) { inputs = run.inputs; registered = true } in
      let cancel = m.uncancelled.0 in
      rw m.inputs (
        run_nodes-Alike p me workflow.nodes (MemoryRun.append_event p run_started none none l)
          (Engine.announce p me x)
          (announce-Mid l x (ap (any is_run_started) m.unwritten.0) (record {
            run_id = m.run_id;
            log = log;
            running = refl;
            status =
                ap (λ (b : Bool). if b then RunStatus.cancelling else RunStatus.running)
                  (sym cancel);
            ended_at = sym m.unended;
            inputs = refl;
            aborted = sym m.uncancelled.1;
            registered = refl;
          })))

  -- The SQLite host implements the in-memory host: for a new run and a fresh row with the same id,
  -- workflow and inputs, after any turns of a process that executes it and any claims, heartbeats and
  -- shutdowns of processes in between, the two hosts have logged the same events (but for their data)
  -- under the same numbers and times, their executions stand at the same place, the run has the same
  -- status and the same end, a cancel request that is under way showing as a status in the one and as a
  -- flag in the other.
  pub run_workflow-Alike :
      (ttl : ℕ) (workflows : List (String × FixtureWorkflow)) (run : Run) (row : RunRow)
      (ts : List Turn)
      → Matches run row
      → all is_undisturbed ts ≡ true
      → Alike p me
          (MemoryTurns.run_schedule p (plain_schedule ts) (MemoryTurns.start p workflows run))
          (run_schedule p me ttl ts (Engine.run_workflow p me workflows row))
  unfolding MemoryTurns.start MemoryEngine.run_workflow Engine.run_workflow
  run_workflow-Alike ttl workflows run row ts m q = turns-Alike ttl ts _ _ q (
      subst
        (λ (w : String).
          R (MemoryEngine.run_found p (lookup run.workflow_id workflows) (MemoryTurns.fresh run))
            (Engine.run_found p me (lookup w workflows) row))
        (sym m.workflow_id) (found-Alike (lookup run.workflow_id workflows) run row m))
