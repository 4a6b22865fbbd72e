-- ===== src/Tests/Client.antt =====
-- Runs of the client's theorems against the in-memory host.
use Prim.Native.String.{String}
use wop.Prelude.{
  ◌↔◌, ltb, length, ◌≡◌, ◌≢◌, refl, ap, Bool, true, false, Option, none, some, [], ◌∷◌, ◌++◌,
  lookup, filter, if◌then◌else◌, maybe, arith, ◌==◌,
}
use wop.Sse.Parser.{codes}
use wop.Json.{Json, obj, str, object, Fields, find_field, nat_num}
use wop.Platform.{Platform}
use wop.Memory.Host.{Host}
use wop.Memory.Run.{Live, finished, RunEvent, Connection}
use wop.Workflow.{run_started, is_terminal}
use wop.Memory.Host.{prune_idempotency_cache}
use wop.Client.Trace.{extract_trace_id}
use wop.Client.Traces.{Parent, extract_trace_id_iff}
use wop.Client.Outcome.{receive}
use wop.Client.Outcomes.{receive-Fits, Fits}
use wop.Memory.Router.{put_run, route}
use wop.Memory.Turns.{request_cancel}
use wop.Memory.Host.{stream}
use wop.Client.Stream.{several, stream_request}
use wop.Client.Events.{events_host}
use wop.Memory.Reads.{snapshot}
use wop.Client.{WopClient, cancel, create, poll_events, MutationOptions, Outgoing}
use wop.Client.Outcome.{Incoming, send, value}
use wop.Client.Host.{IsPlainId, Connected, host_fetch}
use wop.Client.Calls.{cancel_host, poll_host, whole_log}
use wop.Client.Retry.{create_twice}
use wop.Tests.{platform, host, first_run, wf_fields, tick, flow}
use wop.Tests.Network.{web, base, transport, transport-Faithful}

-- A text for each of the values below, and the values of those texts.
abbrev stands : String → Fields → Bool
stands key fs = maybe (find_field key fs) false (λ v. true)

abbrev kind_of : Fields → String
kind_of fs =
    if stands "error" fs
    then "error"
    else if stands "inputs" fs
    then "snapshot"
    else if stands "events" fs
    then "log"
    else if stands "startedAt" fs
    then "created"
    else if stands "runId" fs
    then "cancelling"
    else "request"

abbrev wire_text : Json → String
wire_text (obj fs) = kind_of fs
wire_text _ = "null"

abbrev pub an_event : RunEvent
an_event = record {
  seq = 0;
  run_id = "run-1";
  type = run_started;
  node_id = none;
  payload = none;
  timestamp = "t0";
}

abbrev waiting : Live
waiting = record {
  run = record first_run { events = an_event ∷ [] };
  connections = [];
  task = finished;
}

abbrev cancelling_body : Json
cancelling_body = object (("runId", str "run-1") ∷ ("status", str "cancelling") ∷ [])

abbrev new_body : Json
new_body = object (
    ("runId", str "run-u")
    ∷ ("status", str "pending")
    ∷ ("workflowId", str "wf")
    ∷ ("startedAt", str "t0")
    ∷ [])

abbrev wire_value : String → Option Json
wire_value t =
    if t == "snapshot"
    then some (snapshot waiting.run)
    else if t == "log"
    then some (whole_log waiting.run)
    else if t == "cancelling"
    then some cancelling_body
    else if t == "created"
    then some new_body
    else if t == "request"
    then some (obj wf_fields)
    else none

abbrev wire : Platform
wire = record platform { json_parse = wire_value; json_stringify = wire_text }

abbrev pub sdk : WopClient
sdk = record { base_url = base; api_key = "key"; accept_language = some "de" }

abbrev serving : Host
serving = record host { runs = ("run-1", waiting) ∷ [] }

sdk-Connected : Connected web wire transport sdk serving
sdk-Connected = record {
  faithful = transport-Faithful wire;
  same_key = refl;
  trimmed = refl;
  carried = (refl, refl);
}

run_1-IsPlainId : IsPlainId "run-1"
run_1-IsPlainId = (λ e. omega (arith, ap (λ s. length (codes s)) e), refl)

full : (s : String) → ltb 0 (length (codes s)) ≡ true → s ≢ ""
full s h e = absurd (ground (arith, h, ap (λ x. length (codes x)) e))

abbrev pub no_options : MutationOptions
no_options = record { idempotency_key = none; dedup = none }

cancel_host_example :
    send web wire
      (host_fetch wire transport tick)
      sdk
      (cancel "run-1" (object []) no_options)
      serving
    ≡ (put_run "run-1" (request_cancel waiting) serving, value cancelling_body)
cancel_host_example =
    cancel_host web wire transport sdk serving sdk-Connected tick "run-1" run_1-IsPlainId
      (object []) no_options (refl, full "cancelling" refl)

poll_host_example :
    send web wire
      (host_fetch wire transport tick)
      sdk
      (poll_events "run-1" (some (nat_num 3)) none)
      serving
    ≡ (serving, value (whole_log waiting.run))
poll_host_example =
    poll_host web wire transport sdk serving sdk-Connected tick "run-1" run_1-IsPlainId waiting refl
      (some (nat_num 3)) none (refl, full "log" refl)

abbrev once : MutationOptions
once = record { idempotency_key = some "k"; dedup = none }

create_twice_example :
    let (h₁, o₁) =
      send web wire (host_fetch wire transport tick) sdk (create (obj wf_fields) once) serving in
    let (h₂, o₂) =
      send web wire (host_fetch wire transport tick) sdk (create (obj wf_fields) once) h₁ in
    (o₁ ≡ value new_body) × (o₂ ≡ value new_body) × (h₂.runs ≡ h₁.runs)
unfolding prune_idempotency_cache
create_twice_example =
    create_twice web wire transport sdk serving sdk-Connected wf_fields "k" none "wf" flow
      (refl, full "request" refl) refl refl (full "k" refl) (refl, refl) tick refl tick refl
      (refl, full "created" refl)

abbrev traceparent : String
traceparent = "00-4bf92f3577b34da6a3ce929d0e0e4736-00f067aa0ba902b7-01"

abbrev trace_id : String
trace_id = "4bf92f3577b34da6a3ce929d0e0e4736"

trace_id_found : extract_trace_id traceparent ≡ some trace_id
unfolding extract_trace_id
trace_id_found = refl

extract_trace_id_iff_example :
    (extract_trace_id traceparent ≡ some trace_id) ↔ Parent traceparent trace_id
extract_trace_id_iff_example = extract_trace_id_iff traceparent trace_id

abbrev unavailable : Incoming
unavailable = record {
  status = 503;
  header = λ n. if n == "traceparent" then some traceparent else none;
  text = "<html>";
}

receive-Fits_example : Fits web wire unavailable (receive web wire unavailable)
receive-Fits_example = receive-Fits web wire unavailable

abbrev resuming_request : Outgoing
resuming_request = stream_request web sdk "run-1" (record {
  stream_mode = some (several ("updates" ∷ "messages" ∷ []));
  last_event_id = some "0";
  buffer_ms = none;
})

events_host_example :
    let answer = route wire tick (transport.deliver resuming_request) serving in
    (answer.1
      ≡ stream (
          ("Content-Type", "text/event-stream")
          ∷ ("Cache-Control", "no-cache")
          ∷ ("Connection", "keep-alive")
          ∷ []))
    × (live' : Live) × (c : Connection) × (lookup "run-1" answer.0.runs ≡ some live')
    × (live'.run ≡ waiting.run)
    × (live'.task ≡ waiting.task)
    × (live'.connections ≡ waiting.connections ++ c ∷ [])
    × (c.written ≡ filter (λ (e : RunEvent). ltb 0 e.seq) waiting.run.events)
    × (c.ended ≡ is_terminal waiting.run.status)
    × ((other : String)
        → ("run-1" == other) ≡ false
        → lookup other answer.0.runs ≡ lookup other serving.runs)
events_host_example =
    events_host web wire transport sdk serving sdk-Connected "run-1" run_1-IsPlainId
      (some (several ("updates" ∷ "messages" ∷ []))) "0" (full "0" refl) (refl, refl) tick waiting 0
      refl refl
