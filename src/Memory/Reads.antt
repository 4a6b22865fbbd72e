-- ===== src/Memory/Reads.antt =====
-- The handlers that read a run: `handleGetRun`, `handleEventsPoll`, `handleDebugBundle` and the SSE
-- frames of examples/hosts/in-memory/src/server.ts.
use Prim.Native.String
use wop.Prelude.{
  String, true, Option, none, some, List, [], ◌∷◌, ◌++◌, ◌==◌, map, lookup, length, any, filter,
  if◌then◌else◌, maybe,
}
use wop.Json.{
  Json, Num, nat_num, minus_one, is_above, null, bool, num, str, object, array, nullable,
}
use wop.Platform.{Platform}
use wop.Http.{Request, Response, send_json, send_error, check_auth}
use wop.Workflow.{is_terminal, status_text, type_text}
use wop.Memory.Run.{RunEvent, RunError, Run}
use wop.Memory.Engine.{error_json}
use wop.Memory.Host.{Host}

abbrev pub run_not_found : Platform → String → Response
run_not_found p run_id = send_error p 404 "run_not_found" (String.◌++◌ "Unknown runId: " run_id)

-- A handler of one run, behind the tests of its credential and its id.
abbrev pub with_run : Platform → Host → Request → String → (Run → Response) → Response
with_run p h req run_id handle =
    maybe (check_auth p h.api_key req)
      (maybe (lookup run_id h.runs) (run_not_found p run_id) (λ live. handle live.run))
      (λ refused. refused)

-- `...(run.error ? { error: run.error } : {})`
abbrev pub error_field : Option RunError → List (String × Json)
error_field none = []
error_field (some e) = ("error", error_json e) ∷ []

unfoldable pub snapshot : Run → Json
snapshot run = object (
    ("runId", str run.run_id)
    ∷ ("workflowId", str run.workflow_id)
    ∷ ("status", str (status_text run.status))
    ∷ ("inputs", run.inputs)
    ∷ ("startedAt", str run.started_at)
    ∷ ("endedAt", nullable run.ended_at)
    ∷ error_field run.error)

-- A property that is left out where it has no value.
abbrev optional : String → Option Json → List (String × Json)
optional key none = []
optional key (some v) = (key, v) ∷ []

abbrev text_json : Option String → Option Json
text_json none = none
text_json (some s) = some (str s)

-- An event as `JSON.stringify` sees it.
unfoldable pub event_json : RunEvent → Json
event_json e = object (
    ("seq", num (nat_num e.seq))
      ∷ ("runId", str e.run_id)
      ∷ ("type", str (type_text e.type))
      ∷ optional "nodeId" (text_json e.node_id)
    ++ (optional "data" e.payload ++ ("timestamp", str e.timestamp) ∷ []))

-- `run.events.filter((e) => e.seq > since)`
unfoldable pub events_since : Num → Run → List RunEvent
events_since since run = filter (λ (e : RunEvent). is_above e.seq since) run.events

-- `events.length > 0 ? events[events.length - 1]!.seq : since`
unfoldable pub last_seq : Num → List RunEvent → Num
last_seq since [] = since
last_seq since (e ∷ es) = last_seq (nat_num e.seq) es

module _ (p : Platform) where
  -- `sinceParam !== null ? Number(sinceParam) : -1`
  unfoldable pub since_of : Option String → Num
  since_of none = minus_one
  since_of (some t) = p.number t

  unfoldable pub poll : Num → Run → Json
  unfolding events_since last_seq event_json
  poll since run =
      let events = events_since since run in
      object (
        ("runId", str run.run_id)
        ∷ ("events", array (map event_json events))
        ∷ ("lastEventSeq", num (last_seq since events))
        ∷ ("runStatus", str (status_text run.status))
        ∷ ("isTerminal", bool (is_terminal run.status))
        ∷ [])

  unfoldable pub handle_get_run : Request → String → Host → Response
  unfolding snapshot
  handle_get_run req run_id h = with_run p h req run_id (λ run. send_json p 200 (snapshot run) [])

  unfoldable pub handle_events_poll : Request → String → Host → Response
  unfolding poll since_of
  handle_events_poll req run_id h =
      with_run p h req run_id (λ run. send_json p 200 (poll (since_of req.since) run) [])

  -- `writeEvent` of `handleEventsSse`
  unfoldable pub write_event : RunEvent → String
  unfolding event_json
  write_event e = String.◌++◌ "id: " (
      String.◌++◌ (p.decimal e.seq) (
        String.◌++◌ "\nevent: " (
          String.◌++◌ (type_text e.type)
            (String.◌++◌ "\ndata: " (String.◌++◌ (p.json_stringify (event_json e)) "\n\n")))))

-- `Set.add`, in order of insertion; `undefined` was filtered out
abbrev add_id : Option String → List String → List String
add_id none seen = seen
add_id (some id) seen = if any (λ (s : String). s == id) seen then seen else seen ++ id ∷ []

-- `new Set(…)` of the ids of the nodes that the events name.
unfoldable pub node_ids : List String → List RunEvent → List String
node_ids seen [] = seen
node_ids seen (e ∷ es) = node_ids (add_id e.node_id seen) es

abbrev bundle_event : RunEvent → Json
bundle_event e = object (
    ("sequence", num (nat_num e.seq))
    ∷ ("type", str (type_text e.type))
    ∷ ("timestamp", str e.timestamp)
    ∷ ("nodeId", nullable e.node_id)
    ∷ ("data", elim e.payload [ none ↦ null | some v ↦ v ])
    ∷ [])

-- The bundle of `handleDebugBundle`, at a time that the clock shows.
unfoldable pub bundle : String → Run → Json
unfolding node_ids
bundle generated_at run = object (
    ("bundleVersion", str "1.0")
    ∷ ("generatedAt", str generated_at)
    ∷ (
      "host",
      object (
          ("name", str "wop-host-in-memory")
          ∷ ("version", str "0.1.0")
          ∷ ("vendor", str "wop-spec (reference example)")
          ∷ []),
    )
    ∷ (
      "run",
      object (
          ("runId", str run.run_id)
            ∷ ("workflowId", str run.workflow_id)
            ∷ ("status", str (status_text run.status))
            ∷ ("inputs", object [])
            ∷ ("startedAt", str run.started_at)
            ∷ ("endedAt", nullable run.ended_at)
            ∷ error_field run.error
          ++ ("variables", object []) ∷ []),
    )
    ∷ ("events", array (map bundle_event run.events))
    ∷ ("spans", array [])
    ∷ (
      "metrics",
      object (
          ("nodeCount", num (nat_num (length (node_ids [] run.events))))
          ∷ ("eventCount", num (nat_num (length run.events)))
          ∷ []),
    )
    ∷ ("redactionApplied", bool true)
    ∷ ("redactionMode", str "omit")
    ∷ [])

unfoldable pub handle_debug_bundle : Platform → String → Request → String → Host → Response
unfolding bundle
handle_debug_bundle p generated_at req run_id h =
    with_run p h req run_id
      (λ run. send_json p 200 (bundle generated_at run) (("Cache-Control", "no-store") ∷ []))
