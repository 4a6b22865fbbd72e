-- ===== src/Client.antt =====
-- The SDK client: sdk/typescript/src/client.ts. A method makes the request that it hands to `fetch`;
-- what comes back is read in Client/Outcome. A request body and a response body are JSON values, as
-- the TypeScript types are gone when the code runs.
pub mod Trace
pub mod Types
pub mod Typing
pub mod Refusals
pub mod Outcome
pub mod Traces
pub mod Outcomes
pub mod Host
pub mod Reach
pub mod Replies
pub mod Calls
pub mod Retry
pub mod Stream
pub mod Events
use Prim.Native.Char.{code}
use Prim.Native.String
use Prim.Native.String.{String, ◌∷◌}
use wop.Prelude.{
  Bool, true, false, ◌&&◌, Option, none, some, List, eqb, ◌==◌, lookup, insert, maybe,
  if◌then◌else◌,
}
use wop.Json.{Json, Num}
use wop.Platform.{Platform}

-- What the client takes from the web platform.
pub record Web : Type 0 where
  -- `encodeURIComponent`; a native text has no lone surrogate, on which it would throw
  pub encode_uri_component : String → String
  -- `toString()` of the `URLSearchParams` with these entries
  pub query_text : List (String × String) → String
  -- `String(n)`
  pub number_text : Num → String
  -- the text of a value in a template literal or as the message of an error
  pub text_of : Json → String

-- `WopClientOptions`; `fetch` is an argument of `send` instead.
pub record ClientOptions : Type 0 where
  pub base_url : String
  pub api_key : String
  pub accept_language : Option String

pub record WopClient : Type 0 where
  pub base_url : String
  pub api_key : String
  pub accept_language : Option String

pub data Constructed : Type 0 where
  client : WopClient → Constructed
  type_error : String → Constructed

-- `text.replace(/\/$/, '')`
unfoldable pub strip_last_slash : String → String
strip_last_slash String.[] = String.[]
strip_last_slash (c ∷ s) =
    let rest = strip_last_slash s in if eqb (code c) b'/' && s == "" then "" else c ∷ rest

-- The constructor of `WopClient`
unfoldable pub new_client : ClientOptions → Constructed
unfolding strip_last_slash
new_client opts =
    if opts.base_url == ""
    then type_error "WopClient: baseUrl is required"
    else if opts.api_key == ""
    then type_error "WopClient: apiKey is required"
    else client (record {
      base_url = strip_last_slash opts.base_url;
      api_key = opts.api_key;
      accept_language = opts.accept_language;
    })

-- `MutationOptions`; the one value of `dedup` is `enforce`.
pub record MutationOptions : Type 0 where
  pub idempotency_key : Option String
  pub dedup : Option String

abbrev pub Headers : Type 0
Headers = List (String × String)

-- `RawRequestOptions`; no method gives a `signal`.
pub record RawRequest : Type 0 where
  pub method : String
  pub path : String
  pub headers : Headers
  pub body : Option Json

-- What `fetch` is called with.
pub record Outgoing : Type 0 where
  pub url : String
  pub method : String
  pub headers : Headers
  pub body : Option String

-- `if (value) headers[name] = value`
abbrev pub set_header : String → Option String → Headers → Headers
set_header name none hs = hs
set_header name (some v) hs = if v == "" then hs else insert name v hs

-- `#mutationHeaders`
unfoldable pub mutation_headers : MutationOptions → Headers
mutation_headers opts =
    set_header "X-Dedup" opts.dedup (set_header "Idempotency-Key" opts.idempotency_key List.[])

-- `{ Accept: …, ...headers }`
abbrev pub spread : Headers → Headers → Headers
spread List.[] hs = hs
spread (List.◌∷◌ (k, v) r) hs = spread r (insert k v hs)

-- The content type of a request with a body, where the caller named none.
abbrev pub default_content_type : Option Json → Headers → Headers
default_content_type none hs = hs
default_content_type (some b) hs =
    maybe (lookup "Content-Type" hs) (insert "Content-Type" "application/json" hs) (λ t. hs)

-- The headers of the caller and the content type
abbrev pub typed_headers : RawRequest → Headers
typed_headers raw =
    default_content_type raw.body
      (spread raw.headers (List.◌∷◌ ("Accept", "application/json") List.[]))

-- The headers of `#request`
unfoldable pub request_headers : WopClient → RawRequest → Bool → Headers
request_headers c raw authenticated =
    let typed = typed_headers raw in
    let bearer = insert "Authorization" (String.◌++◌ "Bearer " c.api_key) typed in
    set_header "Accept-Language" c.accept_language (if authenticated then bearer else typed)

-- What `#request` gives to `fetch`
unfoldable pub outgoing : Platform → WopClient → RawRequest → Bool → Outgoing
unfolding request_headers
outgoing p c raw authenticated = record {
  url = String.◌++◌ c.base_url raw.path;
  method = raw.method;
  headers = request_headers c raw authenticated;
  body = maybe raw.body none (λ b. some (p.json_stringify b));
}

-- A request without a body, and one of a mutation.
abbrev reading : String → RawRequest
reading path = record { method = "GET"; path = path; headers = List.[]; body = none }

abbrev pub mutating : String → Json → MutationOptions → RawRequest
mutating path body opts = record {
  method = "POST";
  path = path;
  headers = mutation_headers opts;
  body = some body;
}

-- A method of the client, with its arguments. `interrupt` is `interrupts.resolveByRun`; `inspect` and
-- `resolve` are the methods by token.
pub data Call : Type 0 where
  capabilities openapi : Call
  get_workflow : (workflow_id : String) → Call
  create : (body : Json) (opts : MutationOptions) → Call
  get : (run_id : String) → Call
  cancel : (run_id : String) (body : Json) (opts : MutationOptions) → Call
  fork : (run_id : String) (body : Json) (opts : MutationOptions) → Call
  poll_events : (run_id : String) (last_sequence timeout_seconds : Option Num) → Call
  interrupt : (run_id node_id : String) (body : Json) (opts : MutationOptions) → Call
  inspect : (token : String) → Call
  resolve : (token : String) (body : Json) (opts : MutationOptions) → Call

-- The token is the credential of the last two, and discovery needs none.
unfoldable pub is_authenticated : Call → Bool
is_authenticated capabilities = false
is_authenticated openapi = false
is_authenticated (inspect token) = false
is_authenticated (resolve token body opts) = false
is_authenticated _ = true

module _ (w : Web) where
  abbrev pub run_url : String → String → String
  run_url run_id suffix =
      String.◌++◌ "/v1/runs/" (String.◌++◌ (w.encode_uri_component run_id) suffix)

  -- `if (value !== undefined) search.set(name, String(value))`; the names differ, so it appends
  abbrev set_number : String → Option Num → List (String × String) → List (String × String)
  set_number name none ps = ps
  set_number name (some n) ps = insert name (w.number_text n) ps

  -- The query of `pollEvents`
  unfoldable pub poll_params : Option Num → Option Num → List (String × String)
  poll_params last_sequence timeout_seconds =
      set_number "timeout" timeout_seconds (set_number "lastSequence" last_sequence List.[])

  -- `${qs ? `?${qs}` : ''}`
  abbrev pub query_suffix : String → String
  query_suffix qs = if qs == "" then "" else String.◌++◌ "?" qs

  -- What each method passes to `#request`
  unfoldable pub raw_request : Call → RawRequest
  unfolding mutation_headers poll_params
  raw_request capabilities = reading "/.well-known/wop"
  raw_request openapi = reading "/v1/openapi.json"
  raw_request (get_workflow id) = reading (String.◌++◌ "/v1/workflows/" (w.encode_uri_component id))
  raw_request (create body opts) = mutating "/v1/runs" body opts
  raw_request (get id) = reading (run_url id "")
  raw_request (cancel id body opts) = mutating (run_url id "/cancel") body opts
  raw_request (fork id body opts) = mutating (run_url id ":fork") body opts
  raw_request (poll_events id last_sequence timeout_seconds) = reading (
      run_url id (
        String.◌++◌ "/events/poll"
          (query_suffix (w.query_text (poll_params last_sequence timeout_seconds)))))
  raw_request (interrupt id node_id body opts) =
      mutating (run_url id (String.◌++◌ "/interrupts/" (w.encode_uri_component node_id))) body opts
  raw_request (inspect token) =
      reading (String.◌++◌ "/v1/interrupts/" (w.encode_uri_component token))
  raw_request (resolve token body opts) =
      mutating (String.◌++◌ "/v1/interrupts/" (w.encode_uri_component token)) body opts

  -- The request of a method
  abbrev pub call_request : Platform → WopClient → Call → Outgoing
  call_request p c call = outgoing p c (raw_request call) (is_authenticated call)
