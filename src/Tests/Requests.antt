-- ===== src/Tests/Requests.antt =====
-- Requests to the in-memory host, and the theorems on its handlers applied to them.
use wop.Prelude.{ℕ, String, ◌≡◌, refl, none, [], ◌∷◌, ◌++◌}
use wop.Json.{nat_num}
use wop.Http.{Request, Response, check_auth, send_error}
use wop.Workflow.{run_started}
use wop.Memory.Run.{RunEvent, Run}
use wop.Memory.Turns.{timer, resumption}
use wop.Memory.Host.{IdempotencyEntry, Host, Tick, Reply, handle_create_run}
use wop.Memory.Reads.{events_since, last_seq}
use wop.Memory.Cursor.{poll_cursor}
use wop.Memory.Idempotency.{Accepted}
use wop.Memory.World.{history-RunsInv, history, RunsInv, request, run_turn}
use wop.Tests.{body_1, body_2, wf_fields, platform, flow, first_run, host, post, tick}

history-RunsInv_example : RunsInv platform (
    history platform
      (request tick (post body_1)
        ∷ run_turn "run-u" timer
        ∷ request tick (post body_2)
        ∷ run_turn "run-u" resumption
        ∷ [])
      host)
history-RunsInv_example =
    history-RunsInv platform
      (request tick (post body_1)
        ∷ run_turn "run-u" timer
        ∷ request tick (post body_2)
        ∷ run_turn "run-u" resumption
        ∷ [])
      host tt

abbrev event : ℕ → RunEvent
event n = record {
  seq = n;
  run_id = "run-1";
  type = run_started;
  node_id = none;
  payload = none;
  timestamp = "now";
}

abbrev logged : Run
logged = record first_run { events = event 0 ∷ event 1 ∷ [] }

poll_cursor_example :
    events_since (nat_num 0) logged
      ++ events_since
          (last_seq (nat_num 0) (events_since (nat_num 0) logged))
          (record logged { events = logged.events ++ event 2 ∷ [] })
    ≡ events_since (nat_num 0) (record logged { events = logged.events ++ event 2 ∷ [] })
poll_cursor_example = poll_cursor (nat_num 0) logged (event 2 ∷ []) (refl, (refl, (refl, tt)))

abbrev anonymous : Request
anonymous = record (post body_1) { authorization = none }

abbrev unauthenticated : Response
unauthenticated =
    send_error platform 401 "unauthenticated" "Missing or malformed Authorization header."

authorized : (body : String) → check_auth platform "key" (post body) ≡ none
unfolding check_auth
authorized body = refl

abbrev accepted_1 : Accepted platform host (post body_1) "wf"
accepted_1 = record {
  fields = wf_fields;
  flow = flow;
  authorized = authorized body_1;
  parsed = refl;
  named = refl;
  known = refl;
}

abbrev accepted_2 : Accepted platform host (post body_2) "wf"
accepted_2 = record {
  fields = wf_fields;
  flow = flow;
  authorized = authorized body_2;
  parsed = refl;
  named = refl;
  known = refl;
}

-- The state and the answer after the first request, and after a second one.
abbrev after_first : Host × Reply
after_first = handle_create_run platform tick (post body_1) host

abbrev later_tick : Tick
later_tick = record { now = 100000500; stored_at = 100000501; iso_now = "t1"; uuid = "v" }

abbrev after_second : String → Host × Reply
after_second body = handle_create_run platform later_tick (post body) after_first.0

abbrev entry : String → IdempotencyEntry
entry text = record {
  status = 201;
  body = text;
  content_type = "application/json";
  body_hash = body_1;
  stored_at = 100000001;
}
