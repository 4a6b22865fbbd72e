-- ===== src/Client/Outcome.antt =====
-- What the SDK client makes of the response: `#request` of sdk/typescript/src/client.ts from `fetch`
-- on, and the constructor of `WopError` of sdk/typescript/src/types.ts.
use Prim.Native.String
use wop.Prelude.{
  ℕ, String, Bool, ◌&&◌, Option, none, some, [], ◌∷◌, leb, ◌==◌, if◌then◌else◌, maybe,
}
use wop.Json.{Json, Fields, null, obj, str, object, find_field}
use wop.Platform.{Platform}
use wop.Client.{Web, WopClient, Call, Outgoing, call_request}
use wop.Client.Trace.{extract_trace_id}

-- The `Response` of `fetch`: `res.status`, `res.headers.get(name)` and `await res.text()`.
pub record Incoming : Type 0 where
  pub status : ℕ
  pub header : String → Option String
  pub text : String

pub record WopError : Type 0 where
  pub message : String
  pub status : ℕ
  pub raw_text : String
  pub envelope : Option Json
  pub traceparent : Option String
  pub trace_id : Option String

-- How the promise of a method settles: with the parsed body, with `undefined`, or rejected.
pub data Outcome : Type 0 where
  value : Json → Outcome
  undefined : Outcome
  failed : WopError → Outcome
  rejected : String → Outcome

-- `res.ok`
abbrev pub is_ok : ℕ → Bool
is_ok status = leb 200 status && leb status 299

-- `'error' in parsed && 'message' in parsed`
abbrev pub both_fields : Fields → Option Json → Option Json → Option Json
both_fields fs (some e) (some m) = some (obj fs)
both_fields fs _ _ = none

-- The envelope in the parsed body of an error; no array has these properties.
unfoldable pub envelope_of : Option Json → Option Json
envelope_of (some (obj fs)) = both_fields fs (find_field "error" fs) (find_field "message" fs)
envelope_of _ = none

-- `res.headers.get('traceparent') ?? res.headers.get('Traceparent') ?? undefined`
abbrev pub traceparent_of : Incoming → Option String
traceparent_of res = maybe (res.header "traceparent") (res.header "Traceparent") (λ t. some t)

abbrev pub invalid_json : Json
invalid_json = object (
    ("error", str "invalid_json")
    ∷ ("message", str "Server returned non-JSON body for a 2xx response")
    ∷ [])

-- The empty text counts as no traceparent.
abbrev pub trace_of : Option String → Option String
trace_of none = none
trace_of (some t) = if t == "" then none else extract_trace_id t

-- What `fetch` gives: a response, or an error that the method passes on.
pub data Fetched : Type 0 where
  response : Incoming → Fetched
  network_error : String → Fetched

module _ (w : Web) (p : Platform) where
  -- `value ?? fallback` for a property that may be missing or null, as a message
  abbrev message_of : Option Json → String → String
  message_of none fallback = fallback
  message_of (some null) fallback = fallback
  message_of (some (str s)) fallback = s
  message_of (some v) fallback = w.text_of v

  abbrev pub base_message : ℕ → Option Json → String
  base_message status (some (obj fs)) =
      message_of (find_field "message" fs)
        (String.◌++◌ "WOP request failed: HTTP " (p.decimal status))
  base_message status _ = String.◌++◌ "WOP request failed: HTTP " (p.decimal status)

  abbrev with_trace : String → Option String → String
  with_trace message none = message
  with_trace message (some t) = String.◌++◌ message (String.◌++◌ " (trace=" (String.◌++◌ t ")"))

  -- The constructor of `WopError`
  unfoldable pub new_wop_error : ℕ → String → Option Json → Option String → WopError
  unfolding extract_trace_id
  new_wop_error status raw_text envelope traceparent = record {
    message = with_trace (base_message status envelope) (trace_of traceparent);
    status = status;
    raw_text = raw_text;
    envelope = envelope;
    traceparent = traceparent;
    trace_id = trace_of traceparent;
  }

  -- The body of an error that is empty, or not JSON, holds no envelope.
  abbrev pub error_envelope : String → Option Json
  error_envelope text = if text == "" then none else envelope_of (p.json_parse text)

  -- `#request` from the response on
  unfoldable pub receive : Incoming → Outcome
  unfolding new_wop_error envelope_of
  receive res =
      if is_ok res.status
      then if res.text == ""
        then undefined
        else maybe (p.json_parse res.text)
            (failed (new_wop_error res.status res.text (some invalid_json) (traceparent_of res)))
            (λ v. value v)
      else failed (new_wop_error res.status res.text (error_envelope res.text) (traceparent_of res))

  abbrev pub settle : Fetched → Outcome
  settle (response res) = receive res
  settle (network_error message) = rejected message

  -- A method of the client, over a world that `fetch` changes.
  unfoldable pub send {ℓ} :
      {S : Type ℓ} → (Outgoing → S → S × Fetched) → WopClient → Call → S → S × Outcome
  unfolding receive
  send fetch c call s =
      let (s', fetched) = fetch (call_request w p c call) s in (s', settle fetched)
