-- ===== src/Sqlite/Broadcast.antt =====
-- What the clients of event streams get from a process that executes the run (`handleEventsSse`,
-- `appendEvent`, `handleCancelRun` of examples/hosts/sqlite/src/server.ts).
use wop.Prelude.{
  ℕ, String, ◌≡◌, refl, sym, subst, ◌∙◌, Bool, true, false, List, [], ◌∷◌, ◌++◌, map, length, all,
  lookup, All, All-append, All-at, arith, if_cases, if◌then◌else◌,
}
use wop.Json.{is_above}
use wop.Platform.{Platform}
use wop.Workflow.{FixtureWorkflow, is_terminal}
use wop.Memory.Run.{Connection}
use wop.Sqlite.Rows.{RunRow, try_claim, renew_claim, release_on_shutdown, set_cancel_requested}
use wop.Sqlite.Claims.{Statement, claim, heartbeat, shut_down, cancel, run_statement}
use wop.Sqlite.Engine.{
  Process, Task, is_finished, Execution, fire_timer, fired, aborted_task, resume, request_cancel,
  run_workflow,
}
use wop.Sqlite.Connections.{opened, connect, disconnect}
use wop.Sqlite.Turns.{
  Turn, timer, resumption, cancel_here, subscribe, hang_up, beat, elsewhere, is_quiet, is_allowed,
  turn, run_schedule,
}
use wop.Sqlite.Endings.{Inv, turn-Inv, run_found-Inv}
use wop.Sqlite.Live.{Ok, Served, ReadsBack, Stable, row_of, rows_above}
use wop.Sqlite.Feeds.{Settled, resume_task-Settled, run_workflow-Settled}
use wop.Sqlite.Backlog.{Served-close_at, opened-Served}

is_finished-fired : (t : Task) → is_finished (fired t) ≡ is_finished t
is_finished-fired t = ground arith

is_finished-aborted :
    (b : Bool) (t : Task) → is_finished (if b then aborted_task t else t) ≡ is_finished t
is_finished-aborted b t = ground arith

module _ (p : Platform) (me : Process) where
  events-quiet :
      (ttl : ℕ) (s : Statement) (row : RunRow)
      → is_quiet s ≡ true
      → (run_statement p ttl s row).events ≡ row.events
  unfolding run_statement try_claim renew_claim release_on_shutdown set_cancel_requested
  events-quiet ttl (claim who at now) row q = ground arith
  events-quiet ttl (heartbeat who now) row q = ground arith
  events-quiet ttl (shut_down who) row q = ground arith
  events-quiet ttl cancel row q = refl
  events-quiet ttl _ row q = cc

  -- A connection that opens in this turn resumes after an event that is in the log, or after none.
  abbrev pub FindsIn : Execution → Turn → Type 0
  FindsIn x (subscribe n) = is_above (length x.row.events) n ≡ true
  FindsIn x _ = Unit

  module _ (stable : Stable p) (ttl : ℕ) where
    abbrev Quiet : Execution → Type 0
    Quiet x = Settled p me stable x

    statement-Settled :
        (s : Statement) (x : Execution)
        → is_quiet s ≡ true
        → Quiet x
        → Quiet (turn p me ttl (elsewhere s) x)
    unfolding turn
    statement-Settled s x quiet h =
        subst (λ es. Ok p (is_finished x.task) es x.connections)
          (sym (events-quiet ttl s x.row quiet)) h

    turn-Settled :
        (t : Turn) (x : Execution)
        → is_allowed t ≡ true
        → FindsIn x t
        → Inv p me ttl x
        → Quiet x
        → Quiet (turn p me ttl t x)
    unfolding turn fire_timer resume request_cancel set_cancel_requested connect disconnect
    turn-Settled timer x a found inv h =
        subst (λ b. Ok p b x.row.events x.connections) (sym (is_finished-fired x.task)) h
    turn-Settled resumption x a found inv h = resume_task-Settled p me stable x.task x refl h
    turn-Settled cancel_here x a found inv h =
        if_cases Quiet (is_terminal x.row.status) _ _ (λ over. h)
          (λ going.
            subst (λ b. Ok p b x.row.events x.connections)
              (sym (is_finished-aborted x.registered x.task)) h)
    turn-Settled (subscribe n) x a found inv (back, served) = (
      back,
      All-append (Served p (is_finished x.task) x.row.events) x.connections (opened p me n x.row)
          served (opened-Served p me n x inv.done found back),
    )
    turn-Settled (hang_up i) x a found inv (back, served) =
        (back, Served-close_at p me (is_finished x.task) x.row.events i x.connections served)
    turn-Settled (beat now) x a found inv h =
        if_cases Quiet x.registered _ _ (λ beats. statement-Settled (heartbeat me.id now) x refl h)
          (λ stopped. h)
    turn-Settled (elsewhere s) x a found inv h = statement-Settled s x a h

    -- Every connection of the schedule does so.
    abbrev pub Finds : List Turn → Execution → Type 0
    Finds [] x = Unit
    Finds (t ∷ ts) x = FindsIn x t × Finds ts (turn p me ttl t x)

    schedule-Settled :
        (ts : List Turn) (x : Execution)
        → all is_allowed ts ≡ true
        → Finds ts x
        → Inv p me ttl x
        → Quiet x
        → Quiet (run_schedule p me ttl ts x) × Inv p me ttl (run_schedule p me ttl ts x)
    unfolding run_schedule
    schedule-Settled [] x a found inv h = (h, inv)
    schedule-Settled (t ∷ ts) x a (found, later) inv h =
        schedule-Settled ts (turn p me ttl t x) (ground (arith, a)) later
          (turn-Inv p me ttl t x (ground (arith, a)) inv)
          (turn-Settled t x (ground (arith, a)) found inv h)

    -- A connection to the process that executes a run, opened at any time from the call of
    -- `runWorkflow` on and resumed after an event that the log held (or after none), and not closed by
    -- the client: whatever turns come, and whatever claims, heartbeats, shutdowns and cancel requests of
    -- any process fall between them, it was sent exactly the events of the log above its resume point,
    -- each once and in order, and its response has ended exactly when the run has; where the texts of the
    -- log, and those that `JSON.stringify` writes, are written again as they were once `JSON.parse` has
    -- read them.
    pub connection_sent :
        (workflows : List (String × FixtureWorkflow)) (row : RunRow) (ts : List Turn)
        (x : Execution) (cs ds : List Connection) (c : Connection)
        → run_schedule p me ttl ts (run_workflow p me workflows row) ≡ x
        → All (ReadsBack p) row.events
        → all is_allowed ts ≡ true
        → Finds ts (run_workflow p me workflows row)
        → x.connections ≡ cs ++ c ∷ ds
        → c.closed ≡ false
        → (map (row_of p) c.written ≡ rows_above p c.resume_after_seq x.row.events)
          × (c.ended ≡ is_terminal x.row.status)
    unfolding run_workflow
    connection_sent workflows row ts x cs ds c reached back a found at still =
        let start = run_workflow p me workflows row in
        let (settled, inv) =
          schedule-Settled ts start a found
            (run_found-Inv p me ttl (lookup row.workflow_id workflows) row)
            (run_workflow-Settled p me stable workflows row back) in
        let served = (subst Quiet reached settled).1 in
        let done = (subst (Inv p me ttl) reached inv).done in
        let s : Served p (is_finished x.task) x.row.events c =
          All-at _ cs ds c (subst (All (Served p (is_finished x.task) x.row.events)) at served) in
        (s.sent still, s.ended still ∙ done)
