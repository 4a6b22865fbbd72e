-- ===== src/Sqlite/Reads.antt =====
-- The handlers of examples/hosts/sqlite/src/server.ts that read a run: `handleGetRun`,
-- `handleEventsPoll`, `handleDebugBundle`, and the frames of `handleEventsSse`.
use Prim.Native.String
use wop.Prelude.{
  String, Bool, true, false, Option, none, some, List, [], ◌∷◌, ◌++◌, ◌==◌, lookup, length, any,
  filter, if◌then◌else◌, maybe,
}
use wop.Json.{
  Json, Num, nat_num, minus_one, is_above, null, bool, num, str, object, array, nullable,
}
use wop.Platform.{Platform}
use wop.Http.{Request, Response, send_json, check_auth}
use wop.Workflow.{is_terminal, status_text, type_text}
use wop.Memory.Reads.{run_not_found, since_of}
use wop.Sqlite.Rows.{EventRow, RunRow}
use wop.Sqlite.Engine.{Process}
use wop.Sqlite.Host.{Host, Reply, respond, throw}

-- A value, or the error that `JSON.parse` throws on the way to it.
pub data Parsed {ℓ} (A : Type ℓ) : Type ℓ where
  parsed : A → Parsed A
  raised : String → Parsed A

abbrev pub then_parse {ℓ κ} : {A : Type ℓ} {B : Type κ} → Parsed A → (A → Parsed B) → Parsed B
then_parse (parsed a) f = f a
then_parse (raised m) f = raised m

abbrev pub reply_with : Parsed Response → Reply
reply_with (parsed r) = respond r
reply_with (raised m) = throw m

-- `getEventsAfter`; SQLite takes NaN as NULL, to which no number compares
unfoldable pub get_events_after : Num → RunRow → List EventRow
get_events_after since row = filter (λ (e : EventRow). is_above e.seq since) row.events

-- `events.length > 0 ? events[events.length - 1]!.seq : since`
unfoldable pub last_seq : Num → List EventRow → Num
last_seq since [] = since
last_seq since (e ∷ es) = last_seq (nat_num e.seq) es

-- `new Set(…)` of the ids of the nodes that the rows name
unfoldable pub node_ids : List String → List EventRow → List String
node_ids seen [] = seen
node_ids seen (e ∷ es) =
    maybe e.node_id (node_ids seen es)
      (λ id. node_ids (if any (λ (s : String). s == id) seen then seen else seen ++ id ∷ []) es)

module _ (p : Platform) (me : Process) where
  abbrev pub parse : String → Parsed Json
  parse text = maybe (p.json_parse text) (raised (me.parse_error text)) (λ v. parsed v)

  -- `r.data_json !== null ? JSON.parse(r.data_json) : null`
  abbrev pub data_of : EventRow → Parsed Json
  data_of e = maybe e.data_json (parsed null) parse

  -- `rows.map(…)` with a function that may throw
  abbrev pub map_rows : (EventRow → Json → Json) → List EventRow → Parsed (List Json)
  map_rows f [] = parsed []
  map_rows f (e ∷ es) =
      then_parse (data_of e) (λ v. then_parse (map_rows f es) (λ vs. parsed (f e v ∷ vs)))

  -- An event, with the value that its `data_json` holds.
  abbrev pub event_value : EventRow → Json → Json
  event_value e v = object (
      ("seq", num (nat_num e.seq))
      ∷ ("runId", str e.run_id)
      ∷ ("type", str (type_text e.type))
      ∷ ("nodeId", nullable e.node_id)
      ∷ ("data", v)
      ∷ ("timestamp", str e.timestamp)
      ∷ [])

  -- `...(row.error_json ? { error: JSON.parse(row.error_json) } : {})`
  abbrev pub error_field : Option String → Parsed (List (String × Json))
  error_field none = parsed []
  error_field (some text) =
      if text == "" then parsed [] else then_parse (parse text) (λ v. parsed (("error", v) ∷ []))

  unfoldable pub snapshot : RunRow → Parsed Json
  snapshot row = then_parse (parse row.inputs_json) (λ inputs.
      then_parse (error_field row.error_json) (λ error. parsed (
        object (
          ("runId", str row.run_id)
          ∷ ("workflowId", str row.workflow_id)
          ∷ ("status", str (status_text row.status))
          ∷ ("inputs", inputs)
          ∷ ("startedAt", str row.started_at)
          ∷ ("endedAt", nullable row.ended_at)
          ∷ error))))

  unfoldable pub poll : Num → RunRow → Parsed Json
  unfolding get_events_after last_seq
  poll since row =
      let rows = get_events_after since row in
      then_parse (map_rows event_value rows) (λ events. parsed (
        object (
          ("runId", str row.run_id)
          ∷ ("events", array events)
          ∷ ("lastEventSeq", num (last_seq since rows))
          ∷ ("runStatus", str (status_text row.status))
          ∷ ("isTerminal", bool (is_terminal row.status))
          ∷ [])))

  abbrev bundle_event : EventRow → Json → Json
  bundle_event e v = object (
      ("sequence", num (nat_num e.seq))
      ∷ ("type", str (type_text e.type))
      ∷ ("timestamp", str e.timestamp)
      ∷ ("nodeId", nullable e.node_id)
      ∷ ("data", v)
      ∷ [])

  -- The bundle, once its error and its events are parsed.
  abbrev bundle_of : String → RunRow → List (String × Json) → List Json → Json
  bundle_of generated_at row error events = object (
      ("bundleVersion", str "1.0")
      ∷ ("generatedAt", str generated_at)
      ∷ (
        "host",
        object (
            ("name", str "wop-host-sqlite")
            ∷ ("version", str "0.1.0")
            ∷ ("vendor", str "wop-spec (reference example)")
            ∷ []),
      )
      ∷ (
        "run",
        object (
            ("runId", str row.run_id)
              ∷ ("workflowId", str row.workflow_id)
              ∷ ("status", str (status_text row.status))
              ∷ ("inputs", object [])
              ∷ ("startedAt", str row.started_at)
              ∷ ("endedAt", nullable row.ended_at)
              ∷ error
            ++ ("variables", object []) ∷ []),
      )
      ∷ ("events", array events)
      ∷ ("spans", array [])
      ∷ (
        "metrics",
        object (
            ("nodeCount", num (nat_num (length (node_ids [] row.events))))
            ∷ ("eventCount", num (nat_num (length row.events)))
            ∷ []),
      )
      ∷ ("redactionApplied", bool true)
      ∷ ("redactionMode", str "omit")
      ∷ [])

  -- The bundle of `handleDebugBundle`; every row has a number above -1.
  unfoldable pub bundle : String → RunRow → Parsed Json
  unfolding node_ids get_events_after
  bundle generated_at row = then_parse (error_field row.error_json) (λ error.
      then_parse (map_rows bundle_event (get_events_after minus_one row))
        (λ events. parsed (bundle_of generated_at row error events)))

  -- A handler of one run, behind the tests of its credential and its id.
  abbrev pub with_run : Host → Request → String → (RunRow → Reply) → Reply
  with_run h req run_id handle =
      maybe (check_auth p h.api_key req)
        (maybe (lookup run_id h.runs) (respond (run_not_found p run_id)) (λ x. handle x.row))
        (λ refused. respond refused)

  -- `sendJSON` of a value whose parts were parsed
  abbrev pub send_parsed : Parsed Json → List (String × String) → Reply
  send_parsed value hs = reply_with (then_parse value (λ v. parsed (send_json p 200 v hs)))

  unfoldable pub handle_get_run : Request → String → Host → Reply
  unfolding snapshot
  handle_get_run req run_id h = with_run h req run_id (λ row. send_parsed (snapshot row) [])

  unfoldable pub handle_events_poll : Request → String → Host → Reply
  unfolding poll
  handle_events_poll req run_id h =
      with_run h req run_id (λ row. send_parsed (poll (since_of p req.since) row) [])

  unfoldable pub handle_debug_bundle : String → Request → String → Host → Reply
  unfolding bundle
  handle_debug_bundle generated_at req run_id h =
      with_run h req run_id
        (λ row. send_parsed (bundle generated_at row) (("Cache-Control", "no-store") ∷ []))

  -- `writeEvent` of `handleEventsSse`, for a row of the backlog
  unfoldable pub write_event : EventRow → Json → String
  write_event e v = String.◌++◌ "id: " (
      String.◌++◌ (p.decimal e.seq) (
        String.◌++◌ "\nevent: " (
          String.◌++◌ (type_text e.type)
            (String.◌++◌ "\ndata: " (String.◌++◌ (p.json_stringify (event_value e v)) "\n\n")))))

  -- The body of the loop over the backlog, with what the rest of it gives.
  abbrev pub write_row : EventRow → Parsed Json → List String × Bool → List String × Bool
  write_row e (parsed v) later = (write_event e v ∷ later.0, later.1)
  write_row e (raised m) later = ([], false)

  -- That loop: its frames, and whether it came to the end of the backlog.
  unfoldable pub write_backlog : List EventRow → List String × Bool
  unfolding write_event
  write_backlog [] = ([], true)
  write_backlog (e ∷ es) = write_row e (data_of e) (write_backlog es)
