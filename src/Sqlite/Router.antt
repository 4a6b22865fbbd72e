-- ===== src/Sqlite/Router.antt =====
-- `handleCancelRun`, `handleEventsSse`, `handleDiscovery`, `handleOpenApi`, `route` and the catch of
-- the server callback of examples/hosts/sqlite/src/server.ts. The patterns of the router are those of
-- the in-memory host.
use Prim.Native.String
use wop.Prelude.{String, true, not, ◌&&◌, [], ◌∷◌, lookup, insert, if◌then◌else◌, maybe}
use wop.Json.{Json, Num, nat_num, bool, num, str, object, array}
use wop.Platform.{Platform}
use wop.Http.{Request, send_json, send_error, check_auth}
use wop.Workflow.{is_terminal}
use wop.Memory.Host.{Tick}
use wop.Memory.Reads.{run_not_found}
use wop.Memory.Router.{
  already_terminal, cancel_accepted, Endpoint, discovery, open_api, create, events_poll, events_sse,
  debug_bundle, cancel, snapshot, nowhere, endpoint, method_of, resume_after,
}
use wop.Sqlite.Engine.{Process, Execution, request_cancel}
use wop.Sqlite.Host.{Host, Clock, Reply, stream, respond, throw, handle_create_run}
use wop.Sqlite.Connections.{connect}
use wop.Sqlite.Reads.{
  get_events_after, write_backlog, handle_get_run, handle_events_poll, handle_debug_bundle,
}

abbrev pub put_run : String → Execution → Host → Host
put_run run_id x h = record h { runs = insert run_id x h.runs }

-- `handleDiscovery`
unfoldable pub discovery_payload : Json
discovery_payload = object (
    ("protocolVersion", str "1.0.0")
    ∷ (
      "implementation",
      object (
          ("name", str "wop-host-sqlite")
          ∷ ("version", str "0.1.0")
          ∷ ("vendor", str "wop-spec (reference example)")
          ∷ []),
    )
    ∷ ("supportedEnvelopes", array [])
    ∷ ("schemaVersions", object [])
    ∷ (
      "limits",
      object (
          ("clarificationRounds", num (nat_num 0))
          ∷ ("schemaRounds", num (nat_num 0))
          ∷ ("envelopesPerTurn", num (nat_num 0))
          ∷ ("maxNodeExecutions", num (nat_num 1000))
          ∷ []),
    )
    ∷ ("supportedTransports", array (str "rest" ∷ []))
    ∷ ("debugBundle", object (("supported", bool true) ∷ []))
    ∷ [])

-- An entry of `paths` with one method and one response.
abbrev path_entry : String → String → String → String → String × Json
path_entry path method status description = (
  path,
  object (
      (
        method,
        object (
            ("responses", object ((status, object (("description", str description) ∷ [])) ∷ []))
            ∷ []),
      )
      ∷ []),
)

-- `handleOpenApi`
unfoldable pub open_api_document : Json
open_api_document = object (
    ("openapi", str "3.1.0")
    ∷ ("info", object (("title", str "WOP SQLite reference host") ∷ ("version", str "0.1.0") ∷ []))
    ∷ (
      "paths",
      object (
          path_entry "/.well-known/wop" "get" "200" "OK"
          ∷ path_entry "/v1/runs" "post" "201" "Created"
          ∷ path_entry "/v1/runs/{runId}" "get" "200" "OK"
          ∷ path_entry "/v1/runs/{runId}/cancel" "post" "200" "OK"
          ∷ path_entry "/v1/runs/{runId}/events" "get" "200" "OK"
          ∷ path_entry "/v1/runs/{runId}/events/poll" "get" "200" "OK"
          ∷ path_entry "/v1/runs/{runId}/debug-bundle" "get" "200" "OK"
          ∷ []),
    )
    ∷ [])

module _ (p : Platform) (me : Process) where
  -- `handleCancelRun`
  unfoldable pub handle_cancel_run : Request → String → Host → Host × Reply
  handle_cancel_run req run_id h =
      maybe (check_auth p h.api_key req)
        (maybe (lookup run_id h.runs) ((h, respond (run_not_found p run_id))) (λ x.
          if is_terminal x.row.status
          then (h, respond (send_json p 200 (already_terminal run_id x.row.status) []))
          else (
            put_run run_id (request_cancel x) h,
            respond (send_json p 200 (cancel_accepted run_id) []),
          )))
        (λ refused. (h, respond refused))

  -- The answer of `handleEventsSse`, and the run with the connection. The stream stays open while the
  -- run has not ended; where a row cannot be read, the catch of the server ends it.
  abbrev pub begin_stream : String → Num → Execution → Host → Host × Reply
  begin_stream run_id resume_after_seq x h =
      let (frames, complete) = write_backlog p me (get_events_after resume_after_seq x.row) in
      (
        put_run run_id (connect p me resume_after_seq x) h,
        stream
            (("Content-Type", "text/event-stream")
              ∷ ("Cache-Control", "no-cache")
              ∷ ("Connection", "keep-alive")
              ∷ [])
            frames (complete && not (is_terminal x.row.status)),
      )

  -- `handleEventsSse`
  unfoldable pub handle_events_sse : Request → String → Host → Host × Reply
  unfolding get_events_after write_backlog
  handle_events_sse req run_id h =
      maybe (check_auth p h.api_key req)
        (maybe (lookup run_id h.runs) ((h, respond (run_not_found p run_id)))
          (λ x. begin_stream run_id (resume_after p req.last_event_id) x h))
        (λ refused. (h, respond refused))

  -- The handlers behind the endpoints.
  unfoldable pub handle : Tick → Clock → Endpoint → String → Request → Host → Host × Reply
  unfolding handle_cancel_run handle_events_sse
  handle tick clock discovery path req h = (
    h,
    respond (send_json p 200 discovery_payload (("Cache-Control", "public, max-age=300") ∷ [])),
  )
  handle tick clock open_api path req h = (h, respond (send_json p 200 open_api_document []))
  handle tick clock create path req h = handle_create_run p me tick clock req h
  handle tick clock (events_poll id) path req h = (h, handle_events_poll p me req id h)
  handle tick clock (events_sse id) path req h = handle_events_sse req id h
  handle tick clock (debug_bundle id) path req h =
      (h, handle_debug_bundle p me tick.iso_now req id h)
  handle tick clock (cancel id) path req h = handle_cancel_run req id h
  handle tick clock (snapshot id) path req h = (h, handle_get_run p me req id h)
  handle tick clock nowhere path req h = (
    h,
    respond (
        send_error p 404 "not_found" (
          String.◌++◌ "No route for " (String.◌++◌ (method_of req.method) (String.◌++◌ " " path)))),
  )

  -- The catch of the server callback, where nothing was sent.
  abbrev pub caught : Host × Reply → Host × Reply
  caught (h, throw message) = (h, respond (send_error p 500 "internal" message))
  caught (h, stream hs frames stays_open) = (h, stream hs frames stays_open)
  caught (h, respond r) = (h, respond r)

  -- `route`, with that catch
  unfoldable pub route : Tick → Clock → Request → Host → Host × Reply
  unfolding handle
  route tick clock req h =
      caught (handle tick clock (endpoint (method_of req.method) req.path) req.path req h)
