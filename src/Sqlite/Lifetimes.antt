-- ===== src/Sqlite/Lifetimes.antt =====
-- The tables of the SQLite host over the lives of the processes that use them, one after another: the
-- requests, turns, starts and ends of examples/hosts/sqlite/src/server.ts.
use wop.Prelude.{
  ℕ, String, sym, subst, List, [], ◌∷◌, All, NoDup, keys_where, update_each, NoDup-update_each,
  All-update_each, if_cases,
}
use wop.Platform.{Platform}
use wop.Workflow.{FixtureWorkflow}
use wop.Sqlite.Rows.{RunRow, is_orphan, is_held_by, release_on_shutdown}
use wop.Sqlite.Engine.{Process, Execution, unstarted}
use wop.Sqlite.Turns.{turn}
use wop.Sqlite.Host.{Host, Clock, claim_and_run}
use wop.Sqlite.Router.{route}
use wop.Sqlite.Orphans.{resume_orphans}
use wop.Sqlite.Shutdown.{each_run, stop, shutdown, opened_tables, boot}
use wop.Sqlite.Handover.{keys-each_run}
use wop.Sqlite.World.{Happening, request, run_turn, happen, history, Life, live, lives}
use wop.Sqlite.Numbering.{IsOwn, turn-IsOwn}
use wop.Sqlite.Tables.{IsOwnEntry, Keyed, route-Keyed, claim_and_run-IsOwn}

-- A pass over some entries that keeps each the run's own.
updated-Keyed :
    (f : String → Execution → Execution) (ids : List String) (h : Host)
    → ((id : String) (x : Execution) → IsOwn id x.row → IsOwn id (f id x).row)
    → Keyed h
    → Keyed (record h { runs = update_each f ids h.runs })
updated-Keyed f ids h keep (unique, owns, table) = (
  NoDup-update_each f ids h.runs unique,
  All-update_each IsOwnEntry f ids h.runs keep owns,
  table,
)

All-each_run :
    (f : Execution → Execution) (rs : List (String × Execution))
    → ((id : String) (x : Execution) → IsOwn id x.row → IsOwn id (f x).row)
    → All IsOwnEntry rs
    → All IsOwnEntry (each_run f rs)
All-each_run f [] keep owns = tt
All-each_run f ((id, x) ∷ rs) keep (own, owns) = (keep id x own, All-each_run f rs keep owns)

-- A change of every entry.
each-Keyed :
    (f : Execution → Execution) (h : Host)
    → ((id : String) (x : Execution) → IsOwn id x.row → IsOwn id (f x).row)
    → Keyed h
    → Keyed (record h { runs = each_run f h.runs })
each-Keyed f h keep (unique, owns, table) =
    (subst NoDup (sym (keys-each_run f h.runs)) unique, All-each_run f h.runs keep owns, table)

stop-IsOwn :
    (me : Process) (id : String) (x : Execution) → IsOwn id x.row → IsOwn id (stop me x).row
unfolding stop release_on_shutdown
stop-IsOwn me id x own =
    if_cases (λ (r : RunRow). IsOwn id r) (is_held_by me.id x.row.claim_holder_id) _ _ (λ e. own)
      (λ e. own)

module _ (p : Platform) where
  boot-Keyed :
      (me : Process) (api_key : String) (claim_ttl_ms : ℕ)
      (workflows : List (String × FixtureWorkflow)) (now : ℕ) (clocks : String → Clock)
      (found : Host)
      → Keyed found
      → Keyed (boot p me api_key claim_ttl_ms workflows now clocks found)
  unfolding boot resume_orphans
  boot-Keyed me api_key claim_ttl_ms workflows now clocks found k =
      let opened = record (opened_tables p me found) {
        api_key = api_key;
        claim_ttl_ms = claim_ttl_ms;
        workflows = workflows;
      } in
      updated-Keyed (λ id. claim_and_run p me (clocks id) claim_ttl_ms workflows)
        (keys_where (λ x. is_orphan now x.row) opened.runs) opened
        (λ id x own. claim_and_run-IsOwn p me (clocks id) claim_ttl_ms workflows id x own)
        (each-Keyed (λ x. unstarted p me x.row) found (λ id x own. own) k)

  history-Keyed :
      (me : Process) (xs : List Happening) (h : Host) → Keyed h → Keyed (history p me xs h)
  unfolding history happen
  history-Keyed me [] h k = k
  history-Keyed me (request tick clock req ∷ xs) h k =
      history-Keyed me xs (route p me tick clock req h).0 (route-Keyed p me tick clock req h k)
  history-Keyed me (run_turn run_id t ∷ xs) h k =
      history-Keyed me xs (happen p me (run_turn run_id t) h) (
        updated-Keyed (λ id. turn p me h.claim_ttl_ms t) (run_id ∷ []) h
          (λ id x own. turn-IsOwn p me h.claim_ttl_ms id t x own) k)

  live-Keyed : (l : Life) (h : Host) → Keyed h → Keyed (live p l h)
  unfolding live shutdown
  live-Keyed l h k =
      let started = boot p l.process l.api_key l.claim_ttl_ms l.workflows l.now l.clocks h in
      let left =
        history-Keyed l.process l.happenings started
          (boot-Keyed l.process l.api_key l.claim_ttl_ms l.workflows l.now l.clocks h k) in
      if_cases Keyed l.ends_by_signal _ _
        (λ signalled.
          each-Keyed (stop l.process) (history p l.process l.happenings started)
            (λ id x own. stop-IsOwn l.process id x own) left)
        (λ crashed. left)

  -- Whatever processes use a database one after another, whatever requests come to each, whatever turns
  -- its event loop takes, whatever statements further processes run on the rows, in any order, and
  -- whether it ends by a signal or by a crash: no two runs have one id, no two stored answers one key,
  -- and the events of every run stand under its id and are numbered from 0 without a gap, if this was so
  -- before.
  pub lives-Keyed : (ls : List Life) (h : Host) → Keyed h → Keyed (lives p ls h)
  unfolding lives
  lives-Keyed [] h k = k
  lives-Keyed (l ∷ ls) h k = lives-Keyed ls (live p l h) (live-Keyed l h k)
