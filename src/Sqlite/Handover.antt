-- ===== src/Sqlite/Handover.antt =====
-- What a process that starts after another has shut down makes of the runs: `shutdown` and the
-- bootstrap of examples/hosts/sqlite/src/server.ts together.
use wop.Prelude.{
  ℕ, ◌+◌, String, ◌≡◌, refl, Bool, ◌&&◌, ◌||◌, some, List, [], ◌∷◌, if◌then◌else◌, keys,
}
use wop.Platform.{Platform}
use wop.Workflow.{FixtureWorkflow}
use wop.Sqlite.Rows.{RunRow, is_resumable, is_held_by, is_unclaimed, release_on_shutdown}
use wop.Sqlite.Engine.{Process, Execution, run_workflow, unstarted}
use wop.Sqlite.Host.{Host, Clock}
use wop.Sqlite.Shutdown.{each_run, shutdown, opened_tables}

pub keys-each_run :
    (f : Execution → Execution) (rs : List (String × Execution)) → keys (each_run f rs) ≡ keys rs
keys-each_run f [] = refl
keys-each_run f ((k, x) ∷ rs) = rw (keys-each_run f rs) refl

module _ (p : Platform) (old me : Process) where
  -- The row as this process claims it.
  abbrev pub claimed : (claim_ttl_ms : ℕ) → Clock → RunRow → RunRow
  claimed claim_ttl_ms clock row = record row {
    claim_holder_id = some me.id;
    claim_expires_at = some (clock.at + claim_ttl_ms);
  }

  -- A run that has not ended, and on which no third process holds a claim at this time.
  abbrev pub is_left : ℕ → RunRow → Bool
  is_left now row =
      is_resumable row.status && (is_held_by old.id row.claim_holder_id || is_unclaimed now row)

  -- What the new process has of a run.
  abbrev pub taken_over : ℕ → ℕ → Clock → List (String × FixtureWorkflow) → Execution → Execution
  taken_over claim_ttl_ms now clock workflows x =
      if is_left now x.row
      then run_workflow p me workflows (claimed claim_ttl_ms clock x.row)
      else unstarted p me (release_on_shutdown old.id x.row)

  -- The tables as the new process finds them.
  abbrev left_tables : Host → String → ℕ → List (String × FixtureWorkflow) → Host
  left_tables h api_key claim_ttl_ms workflows = record (opened_tables p me (shutdown old h)) {
    api_key = api_key;
    claim_ttl_ms = claim_ttl_ms;
    workflows = workflows;
  }
