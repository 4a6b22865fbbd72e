-- ===== src/Tests/Refusals.antt =====
-- A refusal of the in-memory host as the SDK's client gets it, and bodies against the SDK's types. The
-- texts of error envelopes are written so that any two of them differ.
use Prim.Native.Char.{Char, code}
use Prim.Native.String.{String, [], ◌∷◌}
use wop.Prelude.{
  ◌≡◌, ◌≢◌, refl, Bool, true, false, not, Option, none, some, eqb, if◌then◌else◌, maybe, arith,
}
use wop.Json.{Json, obj, str, object, field, end, minus_one}
use wop.Platform.{Platform}
use wop.Workflow.{RunStatus}
use wop.Memory.Host.{created_body}
use wop.Memory.Reads.{snapshot, poll, event_json, run_not_found}
use wop.Http.{check_auth, send_error}
use wop.Memory.Router.{route, already_terminal, cancel_accepted, discovery_payload}
use wop.Client.{cancel, outgoing, raw_request, is_authenticated}
use wop.Client.Types.{
  is_run_snapshot, is_cancel_run_response, is_create_run_response, is_run_event_doc,
  is_poll_events_response, is_capabilities, is_error_envelope,
}
use wop.Client.Typing.{bodies_typed}
use wop.Client.Outcome.{send}
use wop.Client.Host.{Connected, host_fetch}
use wop.Client.Replies.{Survives, error_body, FailsWith}
use wop.Client.Refusals.{refusals_enveloped}
use wop.Tests.{platform, host, first_run, tick}
use wop.Tests.Client.{sdk, no_options, an_event}
use wop.Tests.Network.{web, transport, transport-Faithful}

abbrev written : String → String → String
written [] m = "1" ∷ m
written (c ∷ s) m = "0" ∷ (c ∷ written s m)

abbrev prepended : Char → Option (String × String) → Option (String × String)
prepended c none = none
prepended c (some (s, m)) = some (c ∷ s, m)

abbrev read : String → Option (String × String)
read [] = none
read (mark ∷ []) = if eqb (code mark) b'1' then some ([], []) else none
read (mark ∷ (c ∷ s)) =
    let rest = read s in if eqb (code mark) b'1' then some ([], c ∷ s) else prepended c rest

read-written : (s m : String) → read (written s m) ≡ some (s, m)
read-written [] [] = refl
read-written [] (c ∷ m) = refl
read-written (c ∷ s) m = rw (read-written s m) refl

written-full : (s m : String) → written s m ≢ ""
written-full [] m = cc
written-full (c ∷ s) m = cc

abbrev envelope_text : Json → String
envelope_text (obj (field k (str s) (field j (str m) end))) = written s m
envelope_text _ = "null"

abbrev envelope_value : Option (String × String) → Option Json
envelope_value none = none
envelope_value (some (s, m)) = some (error_body s m)

abbrev envelopes : Platform
envelopes = record platform {
  json_parse = λ t. envelope_value (read t);
  json_stringify = envelope_text;
}

envelopes-Survives : (s m : String) → Survives envelopes (error_body s m)
envelopes-Survives s m = (rw (read-written s m) refl, written-full s m)

sdk-Connected : Connected web envelopes transport sdk host
sdk-Connected = record {
  faithful = transport-Faithful envelopes;
  same_key = refl;
  trimmed = refl;
  carried = (refl, refl);
}

refusals_enveloped_example :
    let (h', o) =
      send web envelopes
        (host_fetch envelopes transport tick)
        sdk
        (cancel "run-9" (object wop.Prelude.[]) no_options)
        host in
    (h' ≡ host)
    × (code : String) × (message : String) × (is_error_envelope (error_body code message) ≡ true)
    × FailsWith 404 code message o
unfolding route outgoing raw_request check_auth send_error is_authenticated
refusals_enveloped_example =
    refusals_enveloped envelopes web transport sdk host host tick
      (cancel "run-9" (object wop.Prelude.[]) no_options) (run_not_found envelopes "run-9")
      sdk-Connected tt envelopes-Survives refl refl

bodies_typed_example :
    (is_capabilities discovery_payload ≡ true)
    × (is_cancel_run_response (cancel_accepted "run-1") ≡ true)
    × (is_run_snapshot (snapshot first_run) ≡ true)
    × (is_cancel_run_response (already_terminal "run-1" RunStatus.pending) ≡ false)
    × (is_create_run_response (created_body platform first_run) ≡ false)
    × (is_poll_events_response (poll platform minus_one first_run) ≡ false)
    × (is_run_event_doc (event_json an_event) ≡ false)
bodies_typed_example = bodies_typed platform first_run minus_one "run-1" an_event
