-- ===== src/Client/Typing.antt =====
-- Which bodies of the in-memory host meet the types that the SDK gives them:
-- examples/hosts/in-memory/src/server.ts against sdk/typescript/src/types.ts.
use wop.Prelude.{
  String, ◌≡◌, refl, ◌∙◌, Bool, true, false, not, ◌&&◌, ◌∷◌, Option, none, some, arith,
}
use wop.Json.{Num, str, object, nullable}
use wop.Platform.{Platform}
use wop.Workflow.{RunStatus, status_text}
use wop.Memory.Run.{Run, RunError, RunEvent}
use wop.Memory.Host.{created_body}
use wop.Memory.Reads.{error_field, snapshot, event_json, poll}
use wop.Memory.Router.{already_terminal, cancel_accepted, discovery_payload}
use wop.Sqlite.Engine.{is_cancelling}
use wop.Client.Types.{
  is_run_status, is_run_snapshot, is_cancel_run_response, is_create_run_response, is_run_event_doc,
  is_poll_events_response, is_capabilities,
}

-- The statuses that an answer to a cancel request may have.
abbrev pub is_stopping : RunStatus → Bool
is_stopping RunStatus.cancelling = true
is_stopping RunStatus.cancelled = true
is_stopping _ = false

-- `RunStatus` of the SDK has no cancelling.
status_typed : (s : RunStatus) → is_run_status (str (status_text s)) ≡ not (is_cancelling s)
status_typed RunStatus.pending = refl
status_typed RunStatus.running = refl
status_typed RunStatus.cancelling = refl
status_typed RunStatus.completed = refl
status_typed RunStatus.failed = refl
status_typed RunStatus.cancelled = refl
status_typed RunStatus.waiting_approval = refl

cancel_typed :
    (id : String) (s : RunStatus) → is_cancel_run_response (already_terminal id s) ≡ is_stopping s
unfolding is_cancel_run_response
cancel_typed id RunStatus.pending = refl
cancel_typed id RunStatus.running = refl
cancel_typed id RunStatus.cancelling = refl
cancel_typed id RunStatus.completed = refl
cancel_typed id RunStatus.failed = refl
cancel_typed id RunStatus.cancelled = refl
cancel_typed id RunStatus.waiting_approval = refl

and_true : (b : Bool) → (b && true) ≡ b
and_true true = refl
and_true false = refl

and_false : (b : Bool) → (b && false) ≡ false
and_false true = refl
and_false false = refl

snapshot_typed : (run : Run) → is_run_snapshot (snapshot run) ≡ not (is_cancelling run.status)
unfolding is_run_snapshot snapshot
snapshot_typed run = go run.error
  where
    go :
        (e : Option RunError)
        → is_run_snapshot (
            object (
              ("runId", str run.run_id)
              ∷ ("workflowId", str run.workflow_id)
              ∷ ("status", str (status_text run.status))
              ∷ ("inputs", run.inputs)
              ∷ ("startedAt", str run.started_at)
              ∷ ("endedAt", nullable run.ended_at)
              ∷ error_field e))
          ≡ not (is_cancelling run.status)
    go none = and_true _ ∙ status_typed run.status
    go (some e) = and_true _ ∙ status_typed run.status

event_typed : (e : RunEvent) → is_run_event_doc (event_json e) ≡ false
unfolding is_run_event_doc event_json
event_typed e = ground arith

module _ (p : Platform) where
  -- Of the bodies that the in-memory host answers, the discovery payload and the acceptance of a
  -- cancel request meet the types of the SDK, a snapshot does unless its run is cancelling, and a
  -- report that the run has ended does only where its status is cancelled or cancelling; no answer to a creation, no answer to a
  -- poll and no event does.
  pub bodies_typed :
      (run : Run) (since : Num) (run_id : String) (e : RunEvent)
      → (is_capabilities discovery_payload ≡ true)
        × (is_cancel_run_response (cancel_accepted run_id) ≡ true)
        × (is_run_snapshot (snapshot run) ≡ not (is_cancelling run.status))
        × (is_cancel_run_response (already_terminal run_id run.status) ≡ is_stopping run.status)
        × (is_create_run_response (created_body p run) ≡ false)
        × (is_poll_events_response (poll p since run) ≡ false)
        × (is_run_event_doc (event_json e) ≡ false)
  unfolding is_cancel_run_response is_create_run_response is_poll_events_response is_capabilities
      poll discovery_payload
  bodies_typed run since run_id e = (
    refl,
    refl,
    snapshot_typed run,
    cancel_typed run_id run.status,
    and_false _,
    and_false _,
    event_typed e,
  )
