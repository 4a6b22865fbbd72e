-- ===== src/Client/Retry.antt =====
-- A creation that the SDK client sends twice with one Idempotency-Key: `runs.create` of
-- sdk/typescript/src/client.ts with `handleCreateRun` of examples/hosts/in-memory/src/server.ts.
use Prim.Native.String
use wop.Prelude.{
  ◌-◌, String, ◌≡◌, ◌≢◌, refl, sym, ap, ◌∙◌, false, true, Option, none, some, ltb, lookup, [], ◌∷◌,
}
use wop.Json.{Json, Fields, str, obj, object, find_field}
use wop.Platform.{Platform}
use wop.Http.{Request, Response}
use wop.Workflow.{FixtureWorkflow}
use wop.Memory.Host.{
  Host, Tick, Reply, respond, stream, throw, idempotency_ttl_ms, created, create_key, pruned,
  handle_create_run, create_run,
}
use wop.Memory.Idempotency.{Accepted, retry_replays, handle_first}
use wop.Memory.Router.{Endpoint, endpoint, method_of, route, caught, handle}
use wop.Client.{Web, WopClient, Call, create, raw_request, call_request, outgoing, is_authenticated}
use wop.Client.Outcome.{Outcome, value, settle, send, is_ok}
use wop.Client.Host.{IsHeaderText, Transport, Connected, host_fetch}
use wop.Client.Reach.{seen, authorized, method-seen, lookup-idempotency}
use wop.Client.Replies.{Survives, receive-value}

-- The text of a reply.
abbrev payload_of : Reply → String
payload_of (respond r) = r.payload
payload_of _ = ""

caught-respond :
    (p : Platform) (x : Host × Reply) (r : Response)
    → x.1 ≡ respond r
    → caught p x ≡ (x.0, respond r)
caught-respond p (h, respond r') r e = rw e refl
caught-respond p (h, stream hs) r e = cc
caught-respond p (h, throw m) r e = cc

module _ (w : Web) (p : Platform) (t : Transport) (c : WopClient) (h : Host)
    (k : Connected w p t c h) (fields : Fields) (key : String) (dedup : Option String) where
  abbrev pub creation : Call
  creation = create (obj fields) (record { idempotency_key = some key; dedup = dedup })

  abbrev pub sent : Request
  sent = seen w p t c creation

  endpoint-sent : endpoint (method_of sent.method) sent.path ≡ Endpoint.create
  unfolding raw_request outgoing endpoint
  endpoint-sent =
      rw
        (
          method-seen w p t c h k creation,
          k.faithful.create_path (call_request w p c creation) refl,
        )
        refl

  -- What the handler of the host makes of it comes back, in whatever state the host is.
  send-create :
      (tick : Tick) (now : Host)
      → let r = caught p (handle_create_run p tick sent now) in
        send w p (host_fetch p t tick) c creation now ≡ (r.0, settle w p (t.arrive r.1))
  unfolding send host_fetch route handle
  send-create tick now = rw endpoint-sent refl

  key-sent : key ≢ "" → IsHeaderText p key → sent.idempotency_key ≡ some key
  unfolding raw_request outgoing is_authenticated
  key-sent nonempty text =
      k.faithful.idempotency_key (call_request w p c creation) key
        (lookup-idempotency c "/v1/runs" (obj fields) key dedup nonempty) text

  module _ (id : String) (flow : FixtureWorkflow) (reads : Survives p (obj fields))
      (named : find_field "workflowId" fields ≡ some (str id))
      (known : lookup id h.workflows ≡ some flow) where
    accepted : Accepted p h sent id
    unfolding raw_request outgoing is_authenticated
    accepted = record {
      fields = fields;
      flow = flow;
      authorized = authorized w p t c h k creation refl;
      parsed = rw (k.faithful.body (call_request w p c creation) _ refl) reads.0;
      named = named;
      known = known;
    }

    module _ (nonempty : key ≢ "") (text : IsHeaderText p key) (tick : Tick)
        (unused : lookup (create_key p key) (pruned tick.now h).idempotency_cache ≡ none) where
      -- What the client is told of the run that it created.
      abbrev pub created_body : Json
      created_body = object (
          ("runId", str (String.◌++◌ "run-" tick.uuid))
          ∷ ("status", str "pending")
          ∷ ("workflowId", str id)
          ∷ ("startedAt", str tick.iso_now)
          ∷ [])

      first-payload : payload_of (handle_create_run p tick sent h).1 ≡ p.json_stringify created_body
      unfolding create_run
      first-payload =
          ap (λ (x : Host × Reply). payload_of x.1)
            (handle_first p h tick sent id key accepted (key-sent nonempty text) unused)

      -- A response with a success status and this text gives the value.
      outcome-created :
          (r : Response)
          → is_ok r.status ≡ true
          → r.payload ≡ p.json_stringify created_body
          → Survives p created_body
          → settle w p (t.arrive (respond r)) ≡ value created_body
      outcome-created r ok same s = rw (k.faithful.arrives r) (
          receive-value w p (t.incoming r) created_body (rw (k.faithful.status r) ok)
            (k.faithful.text r ∙ same) s)

      -- A creation that is answered so gives the value.
      send-created :
          (when : Tick) (now : Host) (r : Response)
          → (handle_create_run p when sent now).1 ≡ respond r
          → is_ok r.status ≡ true
          → r.payload ≡ p.json_stringify created_body
          → Survives p created_body
          → send w p (host_fetch p t when) c creation now
            ≡ ((handle_create_run p when sent now).0, value created_body)
      send-created when now r does ok same s =
          send-create when now
          ∙ rw (caught-respond p (handle_create_run p when sent now) r does) (
              ap (λ (o : Outcome). ((handle_create_run p when sent now).0, o))
                (outcome-created r ok same s))

      module _ (later : Tick)
          (young : ltb tick.stored_at (later.now - idempotency_ttl_ms) ≡ false) where
        -- A client with the host's key, over a faithful network, creates a run of a known workflow
        -- with an Idempotency-Key that the host's cache does not hold, and sends the same creation
        -- again to the same host while the entry is younger than the TTL: both calls give the same
        -- value, which names the one run that was created, and the second creates none. The body
        -- and the answer are to be read back by `JSON.parse` as they were written.
        pub create_twice :
            Survives p created_body
            → let (h₁, o₁) = send w p (host_fetch p t tick) c creation h in
              let (h₂, o₂) = send w p (host_fetch p t later) c creation h₁ in
              (o₁ ≡ value created_body) × (o₂ ≡ value created_body) × (h₂.runs ≡ h₁.runs)
        create_twice s =
            let (body, first, second, same) =
              retry_replays p h tick sent id key accepted (key-sent nonempty text) unused later sent
                id accepted (key-sent nonempty text) young refl in
            let told : body ≡ p.json_stringify created_body =
              ap payload_of (sym first) ∙ first-payload in
            rw
              (
                send-created tick h (created p (some key) body) first refl told s,
                send-created later (handle_create_run p tick sent h).0 _ second refl told s,
              )
              (refl, refl, same)
