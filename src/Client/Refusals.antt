-- ===== src/Client/Refusals.antt =====
-- Every refusal of the in-memory host, as a client of the SDK gets it: `sendError` behind every handler
-- of examples/hosts/in-memory/src/server.ts with `#request` of sdk/typescript/src/client.ts.
use wop.Prelude.{
  ℕ, String, ◌≡◌, ◌⊎◌, inl, inr, refl, true, false, Option, none, some, List, [], lookup, ◌∙◌, All,
  All-filter, All-lookup, if_cases, maybe_cases, ◌==◌, strip, ap, arith,
}
use wop.Json.{Json, null, str}
use wop.Platform.{Platform}
use wop.Http.{Request, Response, send_json, send_error, check_auth}
use wop.Workflow.{is_terminal}
use wop.Memory.Run.{Run}
use wop.Memory.Host.{
  IdempotencyEntry, Host, Tick, Reply, respond, stream, throw, create_key, pruned,
  prune_idempotency_cache, replayed, conflict, create_run, use_idempotency_key, with_workflow_id,
  with_parsed, handle_create_run,
}
use wop.Memory.Reads.{with_run, handle_get_run, handle_events_poll, handle_debug_bundle}
use wop.Memory.Router.{
  Endpoint, endpoint, method_of, handle_cancel_run, handle_events_sse, handle, caught, route,
}
use wop.Client.{Web, WopClient, Call}
use wop.Client.Types.{is_error_envelope}
use wop.Client.Outcome.{is_ok, send}
use wop.Client.Host.{Transport, Connected, host_fetch}
use wop.Client.Reach.{seen}
use wop.Client.Replies.{Survives, error_body, FailsWith, receive-error}

module _ (p : Platform) where
  -- What `sendError` sends.
  abbrev pub IsRefusal : Response → Type 0
  IsRefusal r = (code : String) × (message : String) × (r ≡ send_error p r.status code message)

  abbrev pub IsAnswer : Response → Type 0
  IsAnswer r = (is_ok r.status ≡ true) ⊎ IsRefusal r

  -- A reply that is one of these, or begins a stream; nothing was sent where a handler throws.
  abbrev IsAnswered : Host × Reply → Type 0
  IsAnswered (h, respond r) = IsAnswer r
  IsAnswered (h, _) = Unit

  abbrev AnswersBy : Host × Response → Type 0
  AnswersBy r = IsAnswer r.1

  -- The answers that the cache holds are those to creations.
  abbrev pub HoldsSuccesses : List (String × IdempotencyEntry) → Type 0
  HoldsSuccesses = All (λ (e : String × IdempotencyEntry). is_ok e.1.status ≡ true)

  refusal : (status : ℕ) (code message : String) → IsAnswer (send_error p status code message)
  unfolding send_error send_json
  refusal status code message = inr (code, message, refl)

  success : (body : Json) (hs : List (String × String)) → IsAnswer (send_json p 200 body hs)
  unfolding send_json
  success body hs = inl refl

  abbrev AllAnswers : Option Response → Type 0
  AllAnswers none = Unit
  AllAnswers (some r) = IsAnswer r

  check_auth-AllAnswers : (key : String) (req : Request) → AllAnswers (check_auth p key req)
  unfolding check_auth
  check_auth-AllAnswers key req =
      maybe_cases AllAnswers req.authorization _ _ (λ e. refusal 401 _ _)
        (λ auth e.
          maybe_cases AllAnswers (strip "Bearer " auth) _ _ (λ e. refusal 401 _ _)
            (λ token e.
              if_cases AllAnswers (p.trim token == key) _ _ (λ e. tt) (λ e. refusal 401 _ _)))

  refused :
      (key : String) (req : Request) (r : Response) → check_auth p key req ≡ some r → IsAnswer r
  refused key req r e = rw e at (check_auth-AllAnswers key req)

  with_run-IsAnswer :
      (h : Host) (req : Request) (id : String) (f : Run → Response)
      → ((run : Run) → IsAnswer (f run))
      → IsAnswer (with_run p h req id f)
  with_run-IsAnswer h req id f answers =
      maybe_cases IsAnswer (check_auth p h.api_key req) _ _
        (λ e.
          maybe_cases IsAnswer (lookup id h.runs) _ _ (λ e. refusal 404 _ _)
            (λ live e. answers live.run))
        (refused h.api_key req)

  create_run-IsAnswer :
      (tick : Tick) (key : Option String) (hash w : String) (j : Json) (h : Host)
      → AnswersBy (create_run p tick key hash w j h)
  unfolding create_run
  create_run-IsAnswer tick key hash w j h = inl refl

  use_idempotency_key-IsAnswer :
      (tick : Tick) (key : Option String) (hash w : String) (j : Json) (h : Host)
      → HoldsSuccesses h.idempotency_cache
      → AnswersBy (use_idempotency_key p tick key hash w j h)
  unfolding use_idempotency_key prune_idempotency_cache
  use_idempotency_key-IsAnswer tick none hash w j h ok = create_run-IsAnswer tick none hash w j h
  use_idempotency_key-IsAnswer tick (some key) hash w j h ok =
      let h' = pruned tick.now h in
      maybe_cases AnswersBy (lookup (create_key p key) h'.idempotency_cache) _ _
        (λ unused. create_run-IsAnswer tick (some key) hash w j h')
        (λ entry used.
          if_cases AnswersBy (entry.body_hash == hash) (h', replayed p entry) (h', conflict p)
            (λ e. inl (
              All-lookup _ (create_key p key) h'.idempotency_cache used
                (All-filter _ _ h.idempotency_cache ok)))
            (λ e. refusal 409 _ _))

  with_workflow_id-IsAnswered :
      (tick : Tick) (req : Request) (parsed : Json) (h : Host) (id : Option Json)
      → HoldsSuccesses h.idempotency_cache
      → IsAnswered (with_workflow_id p tick req parsed h id)
  with_workflow_id-IsAnswered tick req parsed h (some (str id)) ok =
      maybe_cases IsAnswered (lookup id h.workflows) _ _ (λ missing. refusal 404 _ _)
        (λ flow found. use_idempotency_key-IsAnswer _ _ _ _ _ h ok)
  with_workflow_id-IsAnswered tick req parsed h _ ok = refusal 400 _ _

  with_parsed-IsAnswered :
      (tick : Tick) (req : Request) (h : Host) (parsed : Option Json)
      → HoldsSuccesses h.idempotency_cache
      → IsAnswered (with_parsed p tick req h parsed)
  with_parsed-IsAnswered tick req h none ok = refusal 400 _ _
  with_parsed-IsAnswered tick req h (some null) ok = tt
  with_parsed-IsAnswered tick req h (some parsed) ok =
      with_workflow_id-IsAnswered tick req parsed h _ ok

  handle_create_run-IsAnswered :
      (tick : Tick) (req : Request) (h : Host)
      → HoldsSuccesses h.idempotency_cache
      → IsAnswered (handle_create_run p tick req h)
  unfolding handle_create_run
  handle_create_run-IsAnswered tick req h ok =
      maybe_cases IsAnswered (check_auth p h.api_key req) _ _
        (λ passed. with_parsed-IsAnswered tick req h (p.json_parse req.body) ok)
        (refused h.api_key req)

  handle_cancel_run-IsAnswer :
      (req : Request) (id : String) (h : Host) → AnswersBy (handle_cancel_run p req id h)
  unfolding handle_cancel_run
  handle_cancel_run-IsAnswer req id h =
      maybe_cases AnswersBy (check_auth p h.api_key req) _ _
        (λ passed.
          maybe_cases AnswersBy (lookup id h.runs) _ _ (λ missing. refusal 404 _ _)
            (λ live found.
              if_cases AnswersBy (is_terminal live.run.status) _ _ (λ e. success _ [])
                (λ e. success _ [])))
        (refused h.api_key req)

  handle_events_sse-IsAnswered :
      (req : Request) (id : String) (h : Host) → IsAnswered (handle_events_sse p req id h)
  unfolding handle_events_sse
  handle_events_sse-IsAnswered req id h =
      maybe_cases IsAnswered (check_auth p h.api_key req) _ _
        (λ passed.
          maybe_cases IsAnswered (lookup id h.runs) _ _ (λ missing. refusal 404 _ _)
            (λ live found. tt))
        (refused h.api_key req)

  handle-IsAnswered :
      (tick : Tick) (x : Endpoint) (path : String) (req : Request) (h : Host)
      → HoldsSuccesses h.idempotency_cache
      → IsAnswered (handle p tick x path req h)
  unfolding handle handle_get_run handle_events_poll handle_debug_bundle
  handle-IsAnswered tick Endpoint.discovery path req h ok = success _ _
  handle-IsAnswered tick Endpoint.open_api path req h ok = success _ _
  handle-IsAnswered tick Endpoint.create path req h ok = handle_create_run-IsAnswered tick req h ok
  handle-IsAnswered tick (Endpoint.events_poll id) path req h ok =
      with_run-IsAnswer h req id _ (λ run. success _ _)
  handle-IsAnswered tick (Endpoint.events_sse id) path req h ok =
      handle_events_sse-IsAnswered req id h
  handle-IsAnswered tick (Endpoint.debug_bundle id) path req h ok =
      with_run-IsAnswer h req id _ (λ run. success _ _)
  handle-IsAnswered tick (Endpoint.cancel id) path req h ok = handle_cancel_run-IsAnswer req id h
  handle-IsAnswered tick (Endpoint.snapshot id) path req h ok =
      with_run-IsAnswer h req id _ (λ run. success _ _)
  handle-IsAnswered tick Endpoint.nowhere path req h ok = refusal 404 _ _

  caught-IsAnswered : (r : Host × Reply) → IsAnswered r → IsAnswered (caught p r)
  caught-IsAnswered (h, throw message) a = refusal 500 _ _
  caught-IsAnswered (h, stream hs) a = tt
  caught-IsAnswered (h, respond r) a = a

  route-IsAnswered :
      (tick : Tick) (req : Request) (h : Host)
      → HoldsSuccesses h.idempotency_cache
      → IsAnswered (route p tick req h)
  unfolding route
  route-IsAnswered tick req h ok =
      caught-IsAnswered _
        (handle-IsAnswered tick (endpoint (method_of req.method) req.path) req.path req h ok)

  -- Over a faithful network to an in-memory host whose cache holds answers to creations, any call of
  -- the SDK's client that the host answers with a status outside 200 to 299 leaves the host as the
  -- handler does and fails with a `WopError` of that status, whose envelope has an error code and a
  -- message and meets the SDK's type `ErrorEnvelope`; provided that the text of such an envelope is
  -- not empty and is read back by `JSON.parse`.
  pub refusals_enveloped :
      (w : Web) (t : Transport) (c : WopClient) (h h' : Host) (tick : Tick) (call : Call)
      (r : Response)
      → Connected w p t c h
      → HoldsSuccesses h.idempotency_cache
      → ((code message : String) → Survives p (error_body code message))
      → route p tick (seen w p t c call) h ≡ (h', respond r)
      → is_ok r.status ≡ false
      → ((send w p (host_fetch p t tick) c call h).0 ≡ h')
        × (code : String) × (message : String) × (is_error_envelope (error_body code message)
            ≡ true)
        × FailsWith r.status code message (send w p (host_fetch p t tick) c call h).1
  unfolding send host_fetch send_error send_json is_error_envelope
  refusals_enveloped w t c h h' tick call r k ok survives does bad =
      let answered : IsAnswer r = rw does at (route-IsAnswered tick (seen w p t c call) h ok) in
      let arrived = k.faithful.arrives r in
      elim answered [
        | inl good ↦ absurd (ground (arith, good, bad))
        | inr (code, message, e) ↦
            rw (does, arrived)
              (
                refl,
                code,
                message,
                refl,
                receive-error w p (t.incoming r) r.status code message (k.faithful.status r) bad
                    (k.faithful.text r ∙ ap (λ (x : Response). x.payload) e)
                    (survives code message),
              )
      ]
