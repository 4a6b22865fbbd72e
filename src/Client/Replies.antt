-- ===== src/Client/Replies.antt =====
-- How a reply of the in-memory host comes back to the SDK client: `sendJSON` and `sendError` of
-- examples/hosts/in-memory/src/server.ts with `#request` of sdk/typescript/src/client.ts.
use wop.Prelude.{ℕ, String, ◌≡◌, ◌≢◌, refl, ap, ◌∙◌, true, false, some, List, [], ◌∷◌}
use wop.Json.{Json, str, object}
use wop.Platform.{Platform}
use wop.Http.{Response, send_json, send_error}
use wop.Memory.Host.{Host, Tick, respond}
use wop.Memory.Router.{Endpoint, endpoint, method_of, route, handle}
use wop.Client.{Web, WopClient, Call}
use wop.Client.Outcome.{
  Incoming, Outcome, value, failed, new_wop_error, envelope_of, receive, send, is_ok,
}
use wop.Client.Host.{Transport, Connected, host_fetch}
use wop.Client.Reach.{seen, nonblank}

-- The text of the value reads back as the value, and is not empty.
abbrev pub Survives : Platform → Json → Type 0
Survives p v = (p.json_parse (p.json_stringify v) ≡ some v) × (p.json_stringify v ≢ "")

-- The body of an error.
abbrev pub error_body : String → String → Json
error_body code message = object (("error", str code) ∷ ("message", str message) ∷ [])

-- A `WopError` with this status and envelope.
abbrev pub FailsWith : ℕ → String → String → Outcome → Type 0
FailsWith status code message (failed e) =
    (e.status ≡ status) × (e.envelope ≡ some (error_body code message))
FailsWith status code message _ = ⊥

module _ (w : Web) (p : Platform) where
  pub receive-value :
      (res : Incoming) (v : Json)
      → is_ok res.status ≡ true
      → res.text ≡ p.json_stringify v
      → Survives p v
      → receive w p res ≡ value v
  unfolding receive
  receive-value res v ok same (back, full) =
      rw (ok, same, nonblank (p.json_stringify v) full, back) refl

  pub receive-error :
      (res : Incoming) (status : ℕ) (code message : String)
      → res.status ≡ status
      → is_ok status ≡ false
      → res.text ≡ p.json_stringify (error_body code message)
      → Survives p (error_body code message)
      → FailsWith status code message (receive w p res)
  unfolding receive new_wop_error envelope_of
  receive-error res status code message sent bad same (back, full) =
      rw (sent, bad, same, nonblank (p.json_stringify (error_body code message)) full, back)
        (refl, refl)

  module _ (t : Transport) (c : WopClient) (h : Host) (k : Connected w p t c h) (tick : Tick) where
    -- A handler's response comes back to the client.
    pub send-respond :
        (call : Call) (x : Endpoint) (h' : Host) (r : Response)
        → endpoint (method_of (seen w p t c call).method) (seen w p t c call).path ≡ x
        → handle p tick x (seen w p t c call).path (seen w p t c call) h ≡ (h', respond r)
        → send w p (host_fetch p t tick) c call h ≡ (h', receive w p (t.incoming r))
    unfolding send host_fetch route
    send-respond call x h' r at does = rw (at, does, k.faithful.arrives r) refl

    -- A value that a handler sends is what the method gives.
    pub send-value :
        (call : Call) (x : Endpoint) (h' : Host) (v : Json) (hs : List (String × String))
        (status : ℕ)
        → endpoint (method_of (seen w p t c call).method) (seen w p t c call).path ≡ x
        → handle p tick x (seen w p t c call).path (seen w p t c call) h
          ≡ (h', respond (send_json p status v hs))
        → is_ok status ≡ true
        → Survives p v
        → send w p (host_fetch p t tick) c call h ≡ (h', value v)
    unfolding send_json
    send-value call x h' v hs status at does ok s =
        let r = send_json p status v hs in
        let back =
          receive-value (t.incoming r) v (rw (k.faithful.status r) ok) (k.faithful.text r) s in
        send-respond call x h' r at does ∙ ap (λ (o : Outcome). (h', o)) back

    -- An error that a handler sends is what the method fails with.
    pub send-failure :
        (call : Call) (x : Endpoint) (h' : Host) (status : ℕ) (code message : String)
        → endpoint (method_of (seen w p t c call).method) (seen w p t c call).path ≡ x
        → handle p tick x (seen w p t c call).path (seen w p t c call) h
          ≡ (h', respond (send_error p status code message))
        → is_ok status ≡ false
        → Survives p (error_body code message)
        → ((send w p (host_fetch p t tick) c call h).0 ≡ h')
          × FailsWith status code message (send w p (host_fetch p t tick) c call h).1
    unfolding send_error send_json
    send-failure call x h' status code message at does bad s =
        let r = send_error p status code message in
        let back =
          receive-error (t.incoming r) status code message (k.faithful.status r) bad
            (k.faithful.text r) s in
        rw (send-respond call x h' r at does) (refl, back)
