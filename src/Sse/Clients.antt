-- ===== src/Sse/Clients.antt =====
-- `subscribe` of conformance/src/lib/sse.ts and `streamEvents` of sdk/typescript/src/sse.ts, as
-- functions of what `fetch` and the reads of the body give.
use Prim.Native.String
use wop.Prelude.{
  ℕ, String, Bool, ◌&&◌, Option, none, some, List, [], ◌∷◌, ◌++◌, ltb, leb, ◌==◌, if◌then◌else◌,
  maybe,
}
use wop.Json.{Json, arr, items}
use wop.Platform.{Platform}
use wop.Sse.Parser.{Text, codes, same, initial, feed_all, parse}

-- How the reads of a body ended: `done`, an AbortError (by the caller's signal or by the timeout),
-- or another error.
pub data Ending : Type 0 where
  done : Ending
  aborted : (message : String) (by_caller : Bool) → Ending
  broken : (message : String) → Ending

-- What became of the `fetch`. A body is the decoded chunks that were read, and how it ended; `none`
-- is a `null` body.
pub data Fetch : Type 0 where
  rejected : (message : String) → Fetch
  answered : (status : ℕ) (body : Option (List Text × Ending)) → Fetch

-- `res.ok`
abbrev is_ok : ℕ → Bool
is_ok status = leb 200 status && ltb status 300

-- `event` is the type of the event, `payload` its `data`.
pub record SseEvent : Type 0 where
  pub event : Text
  pub payload : Text
  pub id : Option Text

pub data ClosedBy : Type 0 where
  server timeout caller : ClosedBy

pub record SubscribeResult : Type 0 where
  pub events : List SseEvent
  pub status : ℕ
  pub closed_by : ClosedBy

pub data Outcome : Type 0 where
  returned : SubscribeResult → Outcome
  thrown : (message : String) → Outcome

-- An optional header that an empty value leaves out.
abbrev truthy : String → Option String → List (String × String)
truthy name none = []
truthy name (some v) = if v == "" then [] else (name, v) ∷ []

-- The headers of both requests.
unfoldable pub event_headers : String → Option String → List (String × String)
event_headers api_key last_event_id =
    ("Accept", "text/event-stream")
      ∷ ("Authorization", String.◌++◌ "Bearer " api_key)
      ∷ ("Cache-Control", "no-cache")
      ∷ []
    ++ truthy "Last-Event-ID" last_event_id

-- `flushEvent` of `subscribe`: the event that it pushes
unfoldable pub push_event : Text → Text → Option Text → List SseEvent
push_event event payload id = record { event = event; payload = payload; id = id } ∷ []

unfoldable pub collected : ℕ → List Text → ClosedBy → Outcome
unfolding parse push_event
collected status chunks closed_by =
    returned (record { events = parse push_event chunks; status = status; closed_by = closed_by })

unfoldable pub read_body : ℕ → List Text → Ending → Outcome
unfolding collected
read_body status chunks done = collected status chunks server
read_body status chunks (aborted message by_caller) =
    collected status chunks (if by_caller then caller else timeout)
read_body status chunks (broken message) = thrown message

abbrev unread : ℕ → Outcome
unread status = returned (record { events = []; status = status; closed_by = server })

unfoldable pub subscribe : Fetch → Outcome
unfolding read_body
subscribe (rejected message) = thrown message
subscribe (answered status none) = unread status
subscribe (answered status (some (chunks, ending))) =
    if is_ok status then read_body status chunks ending else unread status

-- The events that the generator yields, and the error that it throws at its end, if any.
pub record Yielded : Type 0 where
  pub events : List Json
  pub error : Option String

-- `parsed as RunEventDoc[]` of a batch, or the one event
abbrev unbatched : Text → Json → List Json
unbatched event (arr vs) = if same event (codes "batch") then items vs else arr vs ∷ []
unbatched event v = v ∷ []

-- `json` is `JSON.parse`, `none` where it throws.
module _ (p : Platform) (json : Text → Option Json) where
  -- `flushAndYield`: what is yielded of a complete event
  unfoldable pub yield_event : Text → Text → Option Text → List Json
  yield_event event payload id = maybe (json payload) [] (unbatched event)

  -- An error of a read ends the generator before its last flush.
  unfoldable pub interrupted : List Text → String → Yielded
  unfolding feed_all yield_event
  interrupted chunks message = record {
    events = (feed_all yield_event chunks ([], initial)).1.emitted;
    error = some message;
  }

  unfoldable pub yield_body : List Text → Ending → Yielded
  unfolding parse interrupted
  yield_body chunks done = record { events = parse yield_event chunks; error = none }
  yield_body chunks (aborted message by_caller) = interrupted chunks message
  yield_body chunks (broken message) = interrupted chunks message

  abbrev subscribe_failed : ℕ → Yielded
  subscribe_failed status = record {
    events = [];
    error = some (String.◌++◌ "SSE subscribe failed: HTTP " (p.decimal status));
  }

  unfoldable pub stream_events : Fetch → Yielded
  unfolding yield_body
  stream_events (rejected message) = record { events = []; error = some message }
  stream_events (answered status none) = subscribe_failed status
  stream_events (answered status (some (chunks, ending))) =
      if is_ok status then yield_body chunks ending else subscribe_failed status
