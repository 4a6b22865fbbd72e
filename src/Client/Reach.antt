-- ===== src/Client/Reach.antt =====
-- Which handler of examples/hosts/in-memory/src/server.ts a method of the client of
-- sdk/typescript/src/client.ts reaches, and what the request carries there.
use Prim.Native.String
use Prim.Native.String.{String}
use text.Mathlib.TextEquality.{eq_iff}
use text.Mathlib.TextLemmas.{append-nil}
use wop.Prelude.{
  ◌≡◌, ◌≢◌, inl, inr, refl, ap, ◌∙◌, true, false, Option, none, some, List, [], ◌∷◌, all, ◌==◌,
  lookup, arith, HasNoSlash, Bool-cases, if_cases, lookup-insert,
}
use wop.Json.{Json, Num}
use wop.Platform.{Platform}
use wop.Http.{Request, check_auth}
use wop.Sse.Parser.{codes}
use wop.Memory.Host.{Host}
use wop.Memory.Router.{Endpoint, endpoint, method_of}
use wop.Memory.Access.{check_auth_iff, run_path}
use wop.Client.{
  Web, WopClient, Outgoing, Call, RawRequest, is_authenticated, mutating, typed_headers,
  default_content_type, set_header, mutation_headers, spread, request_headers, poll_params,
  poll_events, run_url, raw_request, call_request, outgoing, query_suffix,
}
use wop.Client.Host.{is_plain_char, IsPlainId, IsSuffix, Transport, Connected}

pub HasNoSlash-plain : (id : String) → all is_plain_char (codes id) ≡ true → HasNoSlash id
HasNoSlash-plain String.[] h = tt
HasNoSlash-plain (String.◌∷◌ c s) h =
    (λ e. ground (arith, h, e), HasNoSlash-plain s (ground (arith, h)))

pub lookup-set_header :
    (name asked : String) (o : Option String) (hs : List (String × String))
    → (name == asked) ≡ false
    → lookup asked (set_header name o hs) ≡ lookup asked hs
lookup-set_header name asked none hs h = refl
lookup-set_header name asked (some v) hs h =
    if_cases (λ (x : List (String × String)). lookup asked x ≡ lookup asked hs) (v == "") _ _
      (λ blank. refl) (λ other. rw (lookup-insert name asked v hs, h) refl)

-- Every request with a credential carries the key.
lookup-authorization :
    (c : WopClient) (raw : RawRequest)
    → lookup "Authorization" (request_headers c raw true) ≡ some (String.◌++◌ "Bearer " c.api_key)
unfolding request_headers
lookup-authorization c raw =
    lookup-set_header "Accept-Language" "Authorization" c.accept_language _ refl
    ∙ lookup-insert "Authorization" "Authorization" (String.◌++◌ "Bearer " c.api_key)
        (typed_headers raw)

-- A mutation with these headers sends the key.
abbrev Sends : Json → String → List (String × String) → Type 0
Sends body key hs =
    lookup "Idempotency-Key"
      (default_content_type (some body) (spread hs (("Accept", "application/json") ∷ [])))
    ≡ some key

Sends-mutation_headers :
    (body : Json) (key : String) (dedup : Option String)
    → (key == "") ≡ false
    → Sends body key (mutation_headers (record { idempotency_key = some key; dedup = dedup }))
unfolding mutation_headers
Sends-mutation_headers body key none h = rw h refl
Sends-mutation_headers body key (some d) h =
    rw h (if_cases (Sends body key) (d == "") _ _ (λ blank. refl) (λ other. refl))

pub nonblank : (s : String) → s ≢ "" → (s == "") ≡ false
nonblank s h = ground (arith, eq_iff s "")

-- The Idempotency-Key of a mutation is among its headers.
pub lookup-idempotency :
    (c : WopClient) (path : String) (body : Json) (key : String) (dedup : Option String)
    → key ≢ ""
    → lookup "Idempotency-Key" (
        request_headers c
          (mutating path body (record { idempotency_key = some key; dedup = dedup }))
          true)
      ≡ some key
unfolding request_headers
lookup-idempotency c path body key dedup nonempty =
    lookup-set_header "Accept-Language" "Idempotency-Key" c.accept_language _ refl
    ∙ lookup-insert "Authorization" "Idempotency-Key" (String.◌++◌ "Bearer " c.api_key)
        (typed_headers (mutating path body (record { idempotency_key = some key; dedup = dedup })))
    ∙ Sends-mutation_headers body key dedup (nonblank key nonempty)

-- The request that the host sees.
abbrev pub seen : Web → Platform → Transport → WopClient → Call → Request
seen w p t c call = t.deliver (call_request w p c call)

module _ (w : Web) (p : Platform) (t : Transport) (c : WopClient) (h : Host)
    (k : Connected w p t c h) where
  pub authorized :
      (call : Call)
      → is_authenticated call ≡ true
      → check_auth p h.api_key (seen w p t c call) ≡ none
  unfolding outgoing
  authorized call e = (check_auth_iff p h.api_key (seen w p t c call)).1 (
    c.api_key,
    (
      k.faithful.authorization (call_request w p c call) (String.◌++◌ "Bearer " c.api_key)
          (rw e (lookup-authorization c (raw_request w call))) k.carried,
      k.trimmed ∙ k.same_key,
    ),
  )

  -- `deliver` keeps the method.
  pub method-seen :
      (call : Call) → method_of (seen w p t c call).method ≡ (raw_request w call).method
  unfolding outgoing
  method-seen call = ap method_of (k.faithful.method (call_request w p c call))

  module _ (id : String) (plain : IsPlainId id) where
    -- The path of a run's endpoint that a method without a query names.
    path-seen :
        (call : Call) (suffix : String)
        → IsSuffix suffix
        → (raw_request w call).path ≡ run_url w id suffix
        → ((seen w p t c call).path ≡ run_path id suffix) × ((seen w p t c call).since ≡ none)
    unfolding outgoing
    path-seen call suffix clean e =
        k.faithful.path (call_request w p c call) id suffix plain clean
          (rw (e, k.faithful.encodes id plain) refl)

    -- And where the handler is.
    pub endpoint-seen :
        (call : Call) (suffix method : String) (x : Endpoint)
        → IsSuffix suffix
        → (raw_request w call).path ≡ run_url w id suffix
        → (raw_request w call).method ≡ method
        → endpoint method (run_path id suffix) ≡ x
        → endpoint (method_of (seen w p t c call).method) (seen w p t c call).path ≡ x
    endpoint-seen call suffix method x clean at verb found =
        rw (method-seen call, verb, (path-seen call suffix clean at).0) found

    -- The path of a request with the query of any parameters.
    pub query_path :
        (o : Outgoing) (suffix : String) (ps : List (String × String))
        → IsSuffix suffix
        → lookup "since" ps ≡ none
        → o.url
          ≡ String.◌++◌ c.base_url
              (run_path id (String.◌++◌ suffix (query_suffix w (w.query_text ps))))
        → ((t.deliver o).path ≡ run_path id suffix) × ((t.deliver o).since ≡ none)
    query_path o suffix ps clean absent e = elim (Bool-cases (w.query_text ps == "")) [
      | inl blank ↦ k.faithful.path o id suffix plain clean (rw (blank, append-nil suffix) at e)
      | inr other ↦ k.faithful.query o id suffix ps plain clean absent (rw other at e)
    ]

    -- No parameter of `pollEvents` has the name that the handler reads.
    since_absent :
        (last_sequence timeout_seconds : Option Num)
        → lookup "since" (poll_params w last_sequence timeout_seconds) ≡ none
    unfolding poll_params
    since_absent none none = refl
    since_absent none (some n) = refl
    since_absent (some n) none = refl
    since_absent (some n) (some m) = refl

    -- A poll carries no parameter that the handler reads.
    pub poll-seen :
        (last_sequence timeout_seconds : Option Num)
        → let req = seen w p t c (poll_events id last_sequence timeout_seconds) in
          (req.path ≡ run_path id "/events/poll") × (req.since ≡ none)
    unfolding raw_request outgoing
    poll-seen last timeout =
        query_path (call_request w p c (poll_events id last timeout)) "/events/poll"
          (poll_params w last timeout) refl (since_absent last timeout)
          (rw (k.faithful.encodes id plain) refl)
