-- ===== src/Client/Stream.antt =====
-- The request of `streamEvents`: sdk/typescript/src/sse.ts up to its `fetch`, as `runs.events` of
-- sdk/typescript/src/client.ts calls it. What is read of the response is in Sse.
use Prim.Native.String
use wop.Prelude.{String, Option, none, some, List, [], ◌∷◌, ◌==◌, insert, if◌then◌else◌}
use wop.Json.{Num}
use wop.Client.{Web, WopClient, Headers, Outgoing, run_url, query_suffix, set_header}

-- `streamMode`: one mode, or several
pub data Modes : Type 0 where
  one : String → Modes
  several : List String → Modes

-- `EventsStreamOptions`, without the signal
pub record StreamOptions : Type 0 where
  pub stream_mode : Option Modes
  pub last_event_id : Option String
  pub buffer_ms : Option Num

-- `modes.join(',')`
abbrev pub join_commas : List String → String
join_commas [] = ""
join_commas (m ∷ []) = m
join_commas (m ∷ n ∷ ms) = String.◌++◌ m (String.◌++◌ "," (join_commas (n ∷ ms)))

-- The first parameter; the empty text is no mode, an array always is one.
abbrev pub mode_param : Option Modes → List (String × String) → List (String × String)
mode_param none ps = ps
mode_param (some (one m)) ps = if m == "" then ps else insert "streamMode" m ps
mode_param (some (several ms)) ps = insert "streamMode" (join_commas ms) ps

abbrev pub buffer_param : Web → Option Num → List (String × String) → List (String × String)
buffer_param w none ps = ps
buffer_param w (some n) ps = insert "bufferMs" (w.number_text n) ps

unfoldable pub stream_params : Web → StreamOptions → List (String × String)
stream_params w opts = buffer_param w opts.buffer_ms (mode_param opts.stream_mode [])

unfoldable pub stream_headers : String → Option String → Headers
stream_headers api_key last_event_id = set_header "Last-Event-ID" last_event_id (
    ("Accept", "text/event-stream")
    ∷ ("Authorization", String.◌++◌ "Bearer " api_key)
    ∷ ("Cache-Control", "no-cache")
    ∷ [])

-- What `streamEvents` gives to `fetch`
unfoldable pub stream_request : Web → WopClient → String → StreamOptions → Outgoing
unfolding stream_params stream_headers
stream_request w c run_id opts = record {
  url = String.◌++◌ c.base_url (
      run_url w run_id
        (String.◌++◌ "/events" (query_suffix w (w.query_text (stream_params w opts)))));
  method = "GET";
  headers = stream_headers c.api_key opts.last_event_id;
  body = none;
}
