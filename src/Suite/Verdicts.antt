-- ===== src/Suite/Verdicts.antt =====
-- What the polling predicates of conformance/src/lib/polling.ts say of a snapshot that the in-memory
-- host, examples/hosts/in-memory/src/server.ts, sends.
use wop.Prelude.{◌||◌, String, ◌≡◌, refl, ◌==◌, some}
use wop.Platform.{Platform}
use wop.Workflow.{RunStatus, is_terminal, status_text}
use wop.Memory.Run.{Run}
use wop.Memory.Reads
use wop.Suite.Polling.{read_status, is_ended, has_status}

-- A snapshot of the in-memory host counts as ended exactly where its run is terminal, and as of a
-- status exactly where that is the run's.
pub verdicts :
    (p : Platform) (run : Run) (expected : String)
    → (is_ended p (some (wop.Memory.Reads.snapshot run)) ≡ is_terminal run.status)
      × (has_status p expected (some (wop.Memory.Reads.snapshot run))
          ≡ (status_text run.status == expected))
unfolding is_ended has_status read_status wop.Memory.Reads.snapshot
verdicts p run expected = (go run.status, refl)
  where
    go :
        (s : RunStatus)
        → (status_text s == "completed"
            || (status_text s == "failed" || status_text s == "cancelled"))
          ≡ is_terminal s
    go RunStatus.pending = refl
    go RunStatus.running = refl
    go RunStatus.waiting_approval = refl
    go RunStatus.cancelling = refl
    go RunStatus.completed = refl
    go RunStatus.failed = refl
    go RunStatus.cancelled = refl
