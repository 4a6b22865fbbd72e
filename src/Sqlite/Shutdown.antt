-- ===== src/Sqlite/Shutdown.antt =====
-- The end of a process of the SQLite host, `shutdown`, and the start of one on the tables that it
-- finds (examples/hosts/sqlite/src/server.ts). After `db.close()` every statement of the old process
-- throws, so none of its later turns changes the tables.
use wop.Prelude.{ℕ, String, ◌||◌, List, [], ◌∷◌, if◌then◌else◌}
use wop.Platform.{Platform}
use wop.Workflow.{FixtureWorkflow}
use wop.Sqlite.Rows.{release_on_shutdown}
use wop.Sqlite.Engine.{Process, Execution, unstarted, aborted_task}
use wop.Sqlite.Host.{Host, Clock}
use wop.Sqlite.Orphans.{resume_orphans}

-- A statement or a loop that changes every run.
abbrev pub each_run :
    (Execution → Execution) → List (String × Execution) → List (String × Execution)
each_run f [] = []
each_run f ((id, x) ∷ rs) = (id, f x) ∷ each_run f rs

module _ (me : Process) where
  -- The loop over `runningAborters`, and the statement that releases the claims, for one run.
  unfoldable pub stop : Execution → Execution
  unfolding release_on_shutdown
  stop x = record x {
    row = release_on_shutdown me.id x.row;
    aborted = x.aborted || x.registered;
    task = if x.registered then aborted_task x.task else x.task;
  }

  -- `shutdown`
  unfoldable pub shutdown : Host → Host
  shutdown h = record h { runs = each_run stop h.runs }

module _ (p : Platform) (me : Process) where
  -- The tables with no execution and no connection: what a process has of them before it does anything.
  abbrev pub opened_tables : Host → Host
  opened_tables h = record h { runs = each_run (λ x. unstarted p me x.row) h.runs }

  -- The bootstrap with its environment and what `loadFixtures` has registered: `resumeOrphans` on the
  -- tables that were left.
  unfoldable pub boot :
      String → ℕ → List (String × FixtureWorkflow) → ℕ → (String → Clock) → Host → Host
  unfolding resume_orphans
  boot api_key claim_ttl_ms workflows now clocks left =
      resume_orphans p me now clocks (record (opened_tables left) {
        api_key = api_key;
        claim_ttl_ms = claim_ttl_ms;
        workflows = workflows;
      })
