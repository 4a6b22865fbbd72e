-- ===== src/Sqlite/World.antt =====
-- What one process of the SQLite host does after another on the same database, with its clients, its
-- event loop, and what the other processes do to the rows (examples/hosts/sqlite/src/server.ts).
use wop.Prelude.{ℕ, String, Bool, List, [], ◌∷◌, if◌then◌else◌, update}
use wop.Platform.{Platform}
use wop.Http.{Request}
use wop.Workflow.{FixtureWorkflow}
use wop.Memory.Host.{Tick}
use wop.Sqlite.Engine.{Process}
use wop.Sqlite.Turns.{Turn, turn}
use wop.Sqlite.Host.{Host, Clock}
use wop.Sqlite.Router.{route}
use wop.Sqlite.Shutdown.{shutdown, boot}

-- What happens next to a process: a request with what the clock shows, or a turn of one run, in this
-- process or by a statement of another.
pub data Happening : Type 0 where
  request : Tick → Clock → Request → Happening
  run_turn : String → Turn → Happening

-- A process from its start to its end, with its environment, the workflows that `loadFixtures` has
-- registered, what the clock shows at its start, and whether a signal ends it, or a crash
-- between two turns.
pub record Life : Type 0 where
  pub process : Process
  pub api_key : String
  pub claim_ttl_ms : ℕ
  pub workflows : List (String × FixtureWorkflow)
  pub now : ℕ
  pub clocks : String → Clock
  pub happenings : List Happening
  pub ends_by_signal : Bool

module _ (p : Platform) where
  unfoldable pub happen : Process → Happening → Host → Host
  unfolding route turn
  happen me (request tick clock req) h = (route p me tick clock req h).0
  happen me (run_turn run_id t) h = record h {
    runs = update (turn p me h.claim_ttl_ms t) run_id h.runs;
  }

  unfoldable pub history : Process → List Happening → Host → Host
  history me [] h = h
  history me (x ∷ xs) h = history me xs (happen me x h)

  -- The tables that a process leaves, from those that it found.
  unfoldable pub live : Life → Host → Host
  unfolding shutdown boot
  live l found =
      let h =
        history l.process l.happenings
          (boot p l.process l.api_key l.claim_ttl_ms l.workflows l.now l.clocks found) in
      if l.ends_by_signal then shutdown l.process h else h

  unfoldable pub lives : List Life → Host → Host
  lives [] h = h
  lives (l ∷ ls) h = lives ls (live l h)
