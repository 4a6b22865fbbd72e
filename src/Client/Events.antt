-- ===== src/Client/Events.antt =====
-- The event stream that the SDK client asks for, as the in-memory host opens it: `streamEvents` of
-- sdk/typescript/src/sse.ts with `handleEventsSse` of examples/hosts/in-memory/src/server.ts.
use Prim.Native.String
use wop.Prelude.{
  ℕ, String, ◌≡◌, ◌≢◌, refl, false, filter, ltb, ◌++◌, lookup-insert, eq_iff, arith, ◌∙◌, Option,
  none, some, List, [], ◌∷◌, lookup, ◌==◌, if_cases,
}
use wop.Platform.{Platform}
use wop.Http.{Request, check_auth}
use wop.Json.{nat_num, is_above}
use wop.Workflow.{is_terminal}
use wop.Memory.Run.{RunEvent, Connection, Live}
use wop.Memory.Turns.{connect, open_connection}
use wop.Memory.Host.{Host, Tick, stream}
use wop.Memory.Router.{
  endpoint, method_of, events_sse, put_run, resume_after, handle_events_sse, handle, route,
}
use wop.Memory.Access.{check_auth_iff, run_path, endpoint-run_path}
use wop.Client.{Web, WopClient}
use wop.Client.Stream.{
  Modes, one, several, StreamOptions, stream_params, stream_headers, stream_request, mode_param,
}
use wop.Client.Host.{IsPlainId, IsHeaderText, Transport, Connected}
use wop.Client.Reach.{HasNoSlash-plain, nonblank, query_path, lookup-set_header}

-- Above a natural number are the events with a greater one.
is_above-later : (n k : ℕ) → is_above k (nat_num n) ≡ ltb n k
is_above-later n k = grind arith

filter-later :
    (n : ℕ) (es : List RunEvent)
    → filter (λ (e : RunEvent). is_above e.seq (nat_num n)) es
      ≡ filter (λ (e : RunEvent). ltb n e.seq) es
filter-later n [] = refl
filter-later n (e ∷ es) = rw (is_above-later n e.seq, filter-later n es) refl

module _ (w : Web) (p : Platform) (t : Transport) (c : WopClient) (h : Host)
    (k : Connected w p t c h) (id : String) (plain : IsPlainId id) (modes : Option Modes)
    (last : String) (given : last ≢ "") (carried : IsHeaderText p last) where
  abbrev pub resuming : StreamOptions
  resuming = record { stream_mode = modes; last_event_id = some last; buffer_ms = none }

  abbrev asked : Request
  asked = t.deliver (stream_request w c id resuming)

  since_absent : lookup "since" (stream_params w resuming) ≡ none
  unfolding stream_params
  since_absent = go modes
    where
      go : (m : Option Modes) → lookup "since" (mode_param m []) ≡ none
      go none = refl
      go (some (one m)) =
          if_cases (λ (ps : List (String × String)). lookup "since" ps ≡ none) (m == "") _ _
            (λ blank. refl) (λ full. refl)
      go (some (several ms)) = refl

  path-asked : asked.path ≡ run_path id "/events"
  unfolding stream_request
  path-asked =
      (query_path w p t c h k id plain (stream_request w c id resuming) "/events"
        (stream_params w resuming) refl since_absent (rw (k.faithful.encodes id plain) refl)).0

  endpoint-asked : endpoint (method_of asked.method) asked.path ≡ events_sse id
  unfolding stream_request
  endpoint-asked =
      rw (k.faithful.method (stream_request w c id resuming), path-asked)
        (endpoint-run_path id plain.0 (HasNoSlash-plain id plain.1)).2

  authorized-asked : check_auth p h.api_key asked ≡ none
  unfolding stream_request stream_headers
  authorized-asked = (check_auth_iff p h.api_key asked).1 (
    c.api_key,
    (
      k.faithful.authorization (stream_request w c id resuming) (String.◌++◌ "Bearer " c.api_key)
          (lookup-set_header "Last-Event-ID" "Authorization" (some last) _ refl) k.carried,
      k.trimmed ∙ k.same_key,
    ),
  )

  last-asked : asked.last_event_id ≡ some last
  unfolding stream_request stream_headers
  last-asked =
      k.faithful.last_event_id (stream_request w c id resuming) last (rw (nonblank last given) refl)
        carried

  -- A client with the host's key, over a faithful network, asks for the events of a run that the
  -- host has and whose id has only letters, digits, `_` and `-`, after the event with a number that the
  -- last event id stands for: whatever stream modes it names, the host adds to the run one open response,
  -- to which it has written the events of the log with a greater number and which has ended exactly if
  -- the run has, and it changes nothing else of the run, and no other run.
  pub events_host :
      (tick : Tick) (live : Live) (n : ℕ)
      → lookup id h.runs ≡ some live
      → p.number last ≡ nat_num n
      → ((route p tick asked h).1
          ≡ stream (
              ("Content-Type", "text/event-stream")
              ∷ ("Cache-Control", "no-cache")
              ∷ ("Connection", "keep-alive")
              ∷ []))
        × (live' : Live) × (c : Connection) × (lookup id (route p tick asked h).0.runs ≡ some live')
        × (live'.run ≡ live.run)
        × (live'.task ≡ live.task)
        × (live'.connections ≡ live.connections ++ c ∷ [])
        × (c.written ≡ filter (λ (e : RunEvent). ltb n e.seq) live.run.events)
        × (c.ended ≡ is_terminal live.run.status)
        × ((other : String)
            → (id == other) ≡ false
            → lookup other (route p tick asked h).0.runs ≡ lookup other h.runs)
  unfolding route handle handle_events_sse resume_after connect open_connection
  events_host tick live n found number =
      let after : resume_after p (some last) ≡ nat_num n = rw number refl in
      let live' = connect (nat_num n) live in
      let same : route p tick asked h ≡ (
        put_run id live' h,
        stream (
            ("Content-Type", "text/event-stream")
            ∷ ("Cache-Control", "no-cache")
            ∷ ("Connection", "keep-alive")
            ∷ []),
      ) =
        rw (endpoint-asked, authorized-asked, found, last-asked, after) refl in
      rw same (
        refl,
        live',
        open_connection (nat_num n) live,
        rw (lookup-insert id id live' h.runs, (eq_iff id id).1 refl) refl,
        refl,
        refl,
        refl,
        filter-later n live.run.events,
        refl,
        λ other differ. rw (lookup-insert id other live' h.runs, differ) refl,
      )
