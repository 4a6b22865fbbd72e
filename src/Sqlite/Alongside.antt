-- ===== src/Sqlite/Alongside.antt =====
-- What happens to a run between two turns happens alike in both hosts: the timer, a cancel request, and
-- statements on the row (`sleep`, `handleCancelRun`, `tryClaim`, the heartbeat and `shutdown` of
-- examples/hosts/sqlite/src/server.ts).
use wop.Prelude.{
  ℕ, ◌≡◌, refl, sym, ap, ◌∙◌, Bool, true, false, map, arith, if◌then◌else◌, Bool-cases, inl, inr,
}
use wop.Platform.{Platform}
use wop.Workflow.{is_terminal}
use wop.Memory.Run.{Live}
use wop.Memory.Turns as MemoryTurns
use wop.Sqlite.Rows.{try_claim, renew_claim, release_on_shutdown, set_cancel_requested}
use wop.Sqlite.Claims.{Statement, claim, heartbeat, shut_down, run_statement}
use wop.Sqlite.Engine
use wop.Sqlite.Engine.{Process, Task, Execution, is_finished, unstarted, is_run_started}
use wop.Sqlite.Turns.{Turn, elsewhere, turn}
use wop.Sqlite.Simulation.{Alike, row_mark, plain_task}
use wop.Sqlite.Refinement.{if_both}

-- Other processes claim the run, renew a claim or shut down; cancel requests come to this process.
abbrev pub is_undisturbed : Turn → Bool
is_undisturbed (elsewhere (claim who at now)) = true
is_undisturbed (elsewhere (heartbeat who now)) = true
is_undisturbed (elsewhere (shut_down who)) = true
is_undisturbed (elsewhere s) = false
is_undisturbed _ = true

module _ (p : Platform) (me : Process) where
  abbrev R : Live → Execution → Type 0
  R l x = Alike p me l x

  -- What keeps all that the two have in common.
  pub kept :
      (l : Live) (x y : Execution)
      → y.row.run_id ≡ x.row.run_id
      → y.row.events ≡ x.row.events
      → y.row.status ≡ x.row.status
      → y.row.ended_at ≡ x.row.ended_at
      → y.task ≡ x.task
      → y.inputs ≡ x.inputs
      → y.aborted ≡ x.aborted
      → y.registered ≡ x.registered
      → R l x
      → R l y
  kept l x y id events status ended task inputs aborted registered a =
      let same = ap is_finished task in
      record {
        run_id = id ∙ a.run_id;
        log = ap (map row_mark) events ∙ a.log;
        task = a.task ∙ ap plain_task (sym task);
        status = status ∙ a.status;
        ended_at = ended ∙ a.ended_at;
        over = same ∙ a.over;
        running = λ e. a.running (sym same ∙ e);
        inputs = λ e. inputs ∙ a.inputs (sym same ∙ e);
        aborted = λ e. aborted ∙ a.aborted (sym same ∙ e);
        registered = λ e. registered ∙ a.registered (sym same ∙ e);
      }

  fired-plain : (t : Task) → MemoryTurns.fired (plain_task t) ≡ plain_task (Engine.fired t)
  fired-plain (Task.sleeping ms n r) = refl
  fired-plain (Task.slept b n r) = refl
  fired-plain (Task.returned o n r) = refl
  fired-plain Task.finished = refl

  aborted-plain :
      (t : Task) → MemoryTurns.aborted_task (plain_task t) ≡ plain_task (Engine.aborted_task t)
  aborted-plain (Task.sleeping ms n r) = refl
  aborted-plain (Task.slept b n r) = refl
  aborted-plain (Task.returned o n r) = refl
  aborted-plain Task.finished = refl

  finished-fired : (t : Task) → is_finished (Engine.fired t) ≡ is_finished t
  finished-fired t = ground arith

  finished-aborted : (t : Task) → is_finished (Engine.aborted_task t) ≡ is_finished t
  finished-aborted t = ground arith

  pub timer-Alike :
      (l : Live) (x : Execution) → R l x → R (MemoryTurns.fire_timer l) (Engine.fire_timer x)
  unfolding MemoryTurns.fire_timer Engine.fire_timer
  timer-Alike l x a =
      let same = finished-fired x.task in
      record {
        run_id = a.run_id;
        log = a.log;
        task = ap MemoryTurns.fired a.task ∙ fired-plain x.task;
        status = a.status;
        ended_at = a.ended_at;
        over = same ∙ a.over;
        running = λ e. a.running (sym same ∙ e);
        inputs = λ e. a.inputs (sym same ∙ e);
        aborted = λ e. a.aborted (sym same ∙ e);
        registered = λ e. a.registered (sym same ∙ e);
      }

  is_terminal-same :
      (l : Live) (x : Execution) → R l x → is_terminal x.row.status ≡ is_terminal l.run.status
  is_terminal-same l x a = elim (Bool-cases (is_finished x.task)) [
    | inl done ↦
        let closed : is_terminal l.run.status ≡ true = sym a.over ∙ done in
        ground (arith, a.status, closed)
    | inr going ↦ let run = a.running going in ground (arith, a.status, run)
  ]

  pub cancel-Alike :
      (l : Live) (x : Execution)
      → R l x
      → R (MemoryTurns.request_cancel l) (Engine.request_cancel x)
  unfolding MemoryTurns.request_cancel Engine.request_cancel set_cancel_requested
  cancel-Alike l x a =
      if_both R (is_terminal l.run.status) (is_terminal x.row.status) _ _ _ _
        (is_terminal-same l x a) (λ e. a)
        (λ e.
          let g = a.over ∙ e in
          let listed = a.registered g in
          let task_after = λ (b : Bool). if b then Engine.aborted_task x.task else x.task in
          let open_row = is_terminal-same l x a ∙ e in
          record {
            run_id = a.run_id;
            log = a.log;
            task =
                ap MemoryTurns.aborted_task a.task
                ∙ aborted-plain x.task
                ∙ ap (λ b. plain_task (task_after b)) (sym listed);
            status = ground (arith, open_row, e);
            ended_at = a.ended_at;
            over = ap (λ b. is_finished (task_after b)) listed ∙ finished-aborted x.task ∙ a.over;
            running = λ u. a.running g;
            inputs = λ u. a.inputs g;
            aborted = λ u. ground (arith, listed);
            registered = λ u. listed;
          })

  pub own-Alike :
      (ttl : ℕ) (s : Statement) (l : Live) (x : Execution)
      → is_undisturbed (elsewhere s) ≡ true
      → R l x
      → R l (turn p me ttl (elsewhere s) x)
  unfolding turn run_statement try_claim renew_claim release_on_shutdown
  own-Alike ttl (claim who at now) l x q a =
      kept l x _ (ground arith) (ground arith) (ground arith) (ground arith) refl refl refl refl a
  own-Alike ttl (heartbeat who now) l x q a =
      kept l x _ (ground arith) (ground arith) (ground arith) (ground arith) refl refl refl refl a
  own-Alike ttl (shut_down who) l x q a =
      kept l x _ (ground arith) (ground arith) (ground arith) (ground arith) refl refl refl refl a
  own-Alike ttl _ l x q a = cc
