-- ===== src/Client/Calls.antt =====
-- What a method of the SDK client gives in front of the in-memory host: `runs` of
-- sdk/typescript/src/client.ts with the handlers of examples/hosts/in-memory/src/server.ts.
use Prim.Native.String
use wop.Prelude.{
  filter, if_cases, Bool-cases, inl, inr, String, ◌≡◌, refl, true, Option, none, some, List, [],
  ◌∷◌, lookup, arith, if◌then◌else◌, map,
}
use wop.Json.{Json, Num, str, bool, num, array, object, minus_one, is_above}
use wop.Platform.{Platform}
use wop.Workflow.{is_terminal, status_text}
use wop.Memory.Run.{Live, Run, RunEvent}
use wop.Memory.Turns.{request_cancel}
use wop.Memory.Host.{Host, Tick}
use wop.Memory.Reads.{
  snapshot, handle_get_run, event_json, last_seq, poll, events_since, since_of, handle_events_poll,
}
use wop.Memory.Router.{Endpoint, endpoint, method_of, handle, put_run, handle_cancel_run}
use wop.Memory.Access.{endpoint-run_path}
use wop.Client.{
  Web, WopClient, Call, get, cancel, poll_events, raw_request, MutationOptions, is_authenticated,
}
use wop.Client.Outcome.{Outcome, value, send}
use wop.Client.Host.{IsPlainId, Transport, Connected, host_fetch}
use wop.Client.Reach.{HasNoSlash-plain, seen, authorized, endpoint-seen, poll-seen, method-seen}
use wop.Client.Replies.{Survives, FailsWith, error_body, send-value, send-failure}

module _ (w : Web) (p : Platform) (t : Transport) (c : WopClient) (h : Host)
    (k : Connected w p t c h) (tick : Tick) (id : String) (plain : IsPlainId id) where
  -- What `get` gives, by what the host has under the id.
  abbrev pub Got : Option Live → Host × Outcome → Type 0
  Got none (h', o) = (h' ≡ h) × FailsWith 404 "run_not_found" (String.◌++◌ "Unknown runId: " id) o
  Got (some live) (h', o) = (h' ≡ h) × (o ≡ value (snapshot live.run))

  -- The value that the host answers a `get` with.
  abbrev pub get_answer : Option Live → Json
  get_answer none = error_body "run_not_found" (String.◌++◌ "Unknown runId: " id)
  get_answer (some live) = snapshot live.run

  at_snapshot :
      endpoint (method_of (seen w p t c (get id)).method) (seen w p t c (get id)).path
      ≡ Endpoint.snapshot id
  unfolding raw_request
  at_snapshot =
      endpoint-seen w p t c h k id plain (get id) "" "GET" (Endpoint.snapshot id) refl refl refl
        (endpoint-run_path id plain.0 (HasNoSlash-plain id plain.1)).0

  got :
      (o : Option Live)
      → lookup id h.runs ≡ o
      → Survives p (get_answer o)
      → Got o (send w p (host_fetch p t tick) c (get id) h)
  unfolding handle handle_get_run is_authenticated
  got none e s =
      send-failure w p t c h k tick (get id) (Endpoint.snapshot id) h 404 "run_not_found"
        (String.◌++◌ "Unknown runId: " id) at_snapshot
        (rw (authorized w p t c h k (get id) refl, e) refl) refl s
  got (some live) e s =
      let sent =
        send-value w p t c h k tick (get id) (Endpoint.snapshot id) h (snapshot live.run) [] 200
          at_snapshot (rw (authorized w p t c h k (get id) refl, e) refl) refl s in
      rw sent (refl, refl)

  -- A client with the host's key, over a network that carries its requests and the host's replies
  -- faithfully, reads a run whose id has only letters, digits, `_` and `-`: it gets the run's
  -- snapshot, or a `WopError` of status 404 with the host's envelope where there is no such run,
  -- and the host is as it was. The answer's text is to be read back by `JSON.parse` as it was
  -- written.
  pub get_host :
      Survives p (get_answer (lookup id h.runs))
      → Got (lookup id h.runs) (send w p (host_fetch p t tick) c (get id) h)
  get_host s = got (lookup id h.runs) refl s

  -- What the host answers a cancellation with, by what it has under the id.
  abbrev pub cancel_answer : Option Live → Json
  cancel_answer none = error_body "run_not_found" (String.◌++◌ "Unknown runId: " id)
  cancel_answer (some live) =
      if is_terminal live.run.status
      then object (
          ("runId", str id)
          ∷ ("status", str (status_text live.run.status))
          ∷ ("alreadyTerminal", bool true)
          ∷ [])
      else object (("runId", str id) ∷ ("status", str "cancelling") ∷ [])

  -- What `cancel` gives and does, by what the host has under the id.
  abbrev pub Cancelled : Option Live → Host × Outcome → Type 0
  Cancelled none (h', o) =
      (h' ≡ h) × FailsWith 404 "run_not_found" (String.◌++◌ "Unknown runId: " id) o
  Cancelled (some live) r = r ≡ (
    if is_terminal live.run.status then h else put_run id (request_cancel live) h,
    value (cancel_answer (some live)),
  )

  module _ (body : Json) (opts : MutationOptions) where
    abbrev cancelling : Call
    cancelling = cancel id body opts

    at_cancel :
        endpoint (method_of (seen w p t c cancelling).method) (seen w p t c cancelling).path
        ≡ Endpoint.cancel id
    unfolding raw_request
    at_cancel =
        endpoint-seen w p t c h k id plain cancelling "/cancel" "POST" (Endpoint.cancel id) refl
          refl refl (endpoint-run_path id plain.0 (HasNoSlash-plain id plain.1)).4

    cancelled :
        (o : Option Live)
        → lookup id h.runs ≡ o
        → Survives p (cancel_answer o)
        → Cancelled o (send w p (host_fetch p t tick) c cancelling h)
    unfolding handle handle_cancel_run is_authenticated
    cancelled none e s =
        send-failure w p t c h k tick cancelling (Endpoint.cancel id) h 404 "run_not_found"
          (String.◌++◌ "Unknown runId: " id) at_cancel
          (rw (authorized w p t c h k cancelling refl, e) refl) refl s
    cancelled (some live) e s = elim (Bool-cases (is_terminal live.run.status)) [
      | inl ended ↦
          send-value w p t c h k tick cancelling (Endpoint.cancel id) _ _ [] 200 at_cancel
            (rw (authorized w p t c h k cancelling refl, e, ended) refl) refl s
      | inr running ↦
          send-value w p t c h k tick cancelling (Endpoint.cancel id) _ _ [] 200 at_cancel
            (rw (authorized w p t c h k cancelling refl, e, running) refl) refl s
    ]

    -- Such a client cancels such a run: a run that has ended is left alone and its status comes
    -- back as already terminal; to any other the host's cancel request is made and `cancelling`
    -- comes back; and where there is no such run the client gets a `WopError` of status 404 and
    -- the host is as it was. The answer's text is to be read back by `JSON.parse` as it was
    -- written.
    pub cancel_host :
        Survives p (cancel_answer (lookup id h.runs))
        → Cancelled (lookup id h.runs) (send w p (host_fetch p t tick) c cancelling h)
    cancel_host s = cancelled (lookup id h.runs) refl s

-- Every event is behind the start.
filter-all :
    (events : List RunEvent) → filter (λ (e : RunEvent). is_above e.seq minus_one) events ≡ events
filter-all [] = refl
filter-all (e ∷ es) = rw (filter-all es) (
    if_cases (λ (x : List RunEvent). x ≡ e ∷ es) (is_above e.seq minus_one) _ _ (λ kept. refl)
      (λ dropped. absurd (ground (arith, dropped))))

-- The answer to a poll that reads from the start: every event of the run.
abbrev pub whole_log : Run → Json
whole_log run = object (
    ("runId", str run.run_id)
    ∷ ("events", array (map event_json run.events))
    ∷ ("lastEventSeq", num (last_seq minus_one run.events))
    ∷ ("runStatus", str (status_text run.status))
    ∷ ("isTerminal", bool (is_terminal run.status))
    ∷ [])

poll-minus_one : (p : Platform) (run : Run) → poll p minus_one run ≡ whole_log run
unfolding poll events_since
poll-minus_one p run = rw (filter-all run.events) refl

module _ (w : Web) (p : Platform) (t : Transport) (c : WopClient) (h : Host)
    (k : Connected w p t c h) (tick : Tick) (id : String) (plain : IsPlainId id) (live : Live)
    (there : lookup id h.runs ≡ some live) (last_sequence timeout_seconds : Option Num) where
  abbrev polling : Call
  polling = poll_events id last_sequence timeout_seconds

  at_poll :
      endpoint (method_of (seen w p t c polling).method) (seen w p t c polling).path
      ≡ Endpoint.events_poll id
  unfolding raw_request
  at_poll =
      rw
        (
          method-seen w p t c h k polling,
          (poll-seen w p t c h k id plain last_sequence timeout_seconds).0,
        )
        (endpoint-run_path id plain.0 (HasNoSlash-plain id plain.1)).1

  -- Such a client polls such a run, which the host has: whatever cursor it sends as
  -- `lastSequence`, and whatever timeout, it gets the whole log, as the host reads another
  -- parameter, and the host is as it was. The answer's text is to be read back by `JSON.parse` as
  -- it was written.
  pub poll_host :
      Survives p (whole_log live.run)
      → send w p (host_fetch p t tick) c (poll_events id last_sequence timeout_seconds) h
        ≡ (h, value (whole_log live.run))
  unfolding handle handle_events_poll is_authenticated since_of
  poll_host s =
      send-value w p t c h k tick polling (Endpoint.events_poll id) h (whole_log live.run) [] 200
        at_poll
        (rw
          (
            authorized w p t c h k polling refl,
            there,
            (poll-seen w p t c h k id plain last_sequence timeout_seconds).1,
            poll-minus_one p live.run,
          )
          refl)
        refl s
