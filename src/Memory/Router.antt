-- ===== src/Memory/Router.antt =====
-- `handleCancelRun`, `handleEventsSse`, `handleDiscovery`, `handleOpenApi`, `route` and the catch of
-- the server callback of examples/hosts/in-memory/src/server.ts.
use Prim.Native.String
use wop.Prelude.{
  String, Bool, true, ◌&&◌, Option, none, some, [], ◌∷◌, ◌==◌, lookup, insert, strip, span_segment,
  if◌then◌else◌, maybe,
}
use wop.Json.{Json, Num, nat_num, minus_one, is_finite, bool, num, str, object, array}
use wop.Platform.{Platform}
use wop.Http.{Request, Response, send_json, send_error, check_auth}
use wop.Workflow.{RunStatus, is_terminal, status_text}
use wop.Memory.Run.{Live}
use wop.Memory.Turns.{request_cancel, connect}
use wop.Memory.Host.{Host, Tick, Reply, respond, stream, throw, handle_create_run}
use wop.Memory.Reads.{run_not_found, handle_get_run, handle_events_poll, handle_debug_bundle}

abbrev pub put_run : String → Live → Host → Host
put_run run_id live h = record h { runs = insert run_id live h.runs }

-- The endpoints, with the id that a pattern captures.
pub data Endpoint : Type 0 where
  discovery open_api create : Endpoint
  events_poll events_sse debug_bundle cancel snapshot : String → Endpoint
  nowhere : Endpoint

-- `/^\/v1\/runs\/([^/]+)SUFFIX$/.exec(path)`, the captured group
unfoldable pub run_pattern : String → String → Option String
unfolding strip span_segment
run_pattern suffix path = maybe (strip "/v1/runs/" path) (none) (λ s.
    let (run_id, rest) = span_segment s in
    if run_id == "" then none else if rest == suffix then some run_id else none)

-- The tests of `route` from the first pattern on: `GET` or `POST` behind each match.
abbrev first_match : Option String → Bool → (String → Endpoint) → Endpoint → Endpoint
first_match none method handler later = later
first_match (some run_id) method handler later = if method then handler run_id else later

unfoldable pub endpoint : String → String → Endpoint
endpoint method path =
    let get = method == "GET" in
    let post = method == "POST" in
    if get && path == "/.well-known/wop"
    then discovery
    else if get && path == "/v1/openapi.json"
    then open_api
    else if post && path == "/v1/runs"
    then create
    else first_match (run_pattern "/events/poll" path) get events_poll (
        first_match (run_pattern "/events" path) get events_sse (
          first_match (run_pattern "/debug-bundle" path) get debug_bundle (
            first_match (run_pattern "/cancel" path) post cancel
              (first_match (run_pattern "" path) get snapshot nowhere))))

-- `handleDiscovery`
unfoldable pub discovery_payload : Json
discovery_payload = object (
    ("protocolVersion", str "1.0.0")
    ∷ (
      "implementation",
      object (
          ("name", str "wop-host-in-memory")
          ∷ ("version", str "0.1.0")
          ∷ ("vendor", str "wop-spec (reference example)")
          ∷ []),
    )
    ∷ ("supportedEnvelopes", array [])
    ∷ ("schemaVersions", object [])
    ∷ (
      "limits",
      object (
          ("clarificationRounds", num (nat_num 0))
          ∷ ("schemaRounds", num (nat_num 0))
          ∷ ("envelopesPerTurn", num (nat_num 0))
          ∷ ("maxNodeExecutions", num (nat_num 1000))
          ∷ []),
    )
    ∷ ("supportedTransports", array (str "rest" ∷ []))
    ∷ ("debugBundle", object (("supported", bool true) ∷ []))
    ∷ [])

-- An entry of `paths` with one method, and the response that it promises.
abbrev path_entry : String → String → String → String → String → String × Json
path_entry path method summary status description = (
  path,
  object (
      (
        method,
        object (
            ("summary", str summary)
            ∷ ("responses", object ((status, object (("description", str description) ∷ [])) ∷ []))
            ∷ []),
      )
      ∷ []),
)

-- `handleOpenApi`
unfoldable pub open_api_document : Json
open_api_document = object (
    ("openapi", str "3.1.0")
    ∷ (
      "info",
      object (
          ("title", str "WOP in-memory reference host")
          ∷ ("version", str "0.1.0")
          ∷ (
            "description",
            str
                "Stub OpenAPI document. The full canonical OpenAPI bundle lives at api/openapi.yaml in the WOP repo. This host serves only the shape conformance suites assert on.",
          )
          ∷ []),
    )
    ∷ (
      "paths",
      object (
          path_entry "/.well-known/wop" "get" "Capability discovery" "200" "OK"
          ∷ path_entry "/v1/runs" "post" "Create run" "201" "Created"
          ∷ path_entry "/v1/runs/{runId}" "get" "Get run snapshot" "200" "OK"
          ∷ path_entry "/v1/runs/{runId}/cancel" "post" "Cancel run" "200" "OK"
          ∷ path_entry "/v1/runs/{runId}/events" "get" "SSE event stream" "200" "OK"
          ∷ path_entry "/v1/runs/{runId}/events/poll" "get" "Polling event read" "200" "OK"
          ∷ []),
    )
    ∷ [])

-- `req.method ?? 'GET'`
abbrev pub method_of : Option String → String
method_of none = "GET"
method_of (some m) = m

-- The bodies of the answers of `handleCancelRun`.
abbrev pub already_terminal : String → RunStatus → Json
already_terminal run_id status = object (
    ("runId", str run_id)
    ∷ ("status", str (status_text status))
    ∷ ("alreadyTerminal", bool true)
    ∷ [])

abbrev pub cancel_accepted : String → Json
cancel_accepted run_id = object (("runId", str run_id) ∷ ("status", str "cancelling") ∷ [])

module _ (p : Platform) where
  -- `handleCancelRun`
  unfoldable pub handle_cancel_run : Request → String → Host → Host × Response
  handle_cancel_run req run_id h =
      maybe (check_auth p h.api_key req)
        (maybe (lookup run_id h.runs) ((h, run_not_found p run_id)) (λ live.
          if is_terminal live.run.status
          then (h, send_json p 200 (already_terminal run_id live.run.status) [])
          else (
            put_run run_id (request_cancel live) h,
            send_json p 200 (cancel_accepted run_id) [],
          )))
        (λ refused. (h, refused))

  -- The resume point of `handleEventsSse`.
  unfoldable pub resume_after : Option String → Num
  resume_after none = minus_one
  resume_after (some t) = let x = p.number t in if is_finite x then x else minus_one

  -- `handleEventsSse`
  unfoldable pub handle_events_sse : Request → String → Host → Host × Reply
  unfolding resume_after
  handle_events_sse req run_id h =
      maybe (check_auth p h.api_key req)
        (maybe (lookup run_id h.runs) ((h, respond (run_not_found p run_id))) (λ live. (
          put_run run_id (connect (resume_after req.last_event_id) live) h,
          stream (
              ("Content-Type", "text/event-stream")
              ∷ ("Cache-Control", "no-cache")
              ∷ ("Connection", "keep-alive")
              ∷ []),
        )))
        (λ refused. (h, respond refused))

  abbrev pub plain : Host → Response → Host × Reply
  plain h r = (h, respond r)

  -- The handlers behind the endpoints.
  unfoldable pub handle : Tick → Endpoint → String → Request → Host → Host × Reply
  unfolding handle_cancel_run handle_events_sse
  handle tick discovery path req h =
      plain h (send_json p 200 discovery_payload (("Cache-Control", "public, max-age=300") ∷ []))
  handle tick open_api path req h = plain h (send_json p 200 open_api_document [])
  handle tick create path req h = handle_create_run p tick req h
  handle tick (events_poll id) path req h = plain h (handle_events_poll p req id h)
  handle tick (events_sse id) path req h = handle_events_sse req id h
  handle tick (debug_bundle id) path req h = plain h (handle_debug_bundle p tick.iso_now req id h)
  handle tick (cancel id) path req h = let (h', r) = handle_cancel_run req id h in (h', respond r)
  handle tick (snapshot id) path req h = plain h (handle_get_run p req id h)
  handle tick nowhere path req h = plain h (
      send_error p 404 "not_found"
        (String.◌++◌ "No route for " (String.◌++◌ (method_of req.method) (String.◌++◌ " " path))))

  -- The catch of the server callback: nothing was sent where a handler throws.
  abbrev pub caught : Host × Reply → Host × Reply
  caught (h, throw message) = (h, respond (send_error p 500 "internal" message))
  caught (h, stream headers) = (h, stream headers)
  caught (h, respond r) = (h, respond r)

  -- `route`, with that catch. A request has its path here, so `new URL`, which may throw, has no
  -- counterpart.
  unfoldable pub route : Tick → Request → Host → Host × Reply
  unfolding endpoint run_pattern handle
  route tick req h = caught (handle tick (endpoint (method_of req.method) req.path) req.path req h)
