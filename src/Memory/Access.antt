-- ===== src/Memory/Access.antt =====
-- Who gets in, and where a request goes: `checkAuth` and `route` of
-- examples/hosts/in-memory/src/server.ts.
use Prim.Native.String
use wop.Prelude.{
  String, ◌≡◌, refl, sym, ap, ◌∙◌, Bool, true, false, Option, none, some, ◌==◌, eq_iff, strip,
  strip-append, span_segment-append, HasNoSlash, arith, Bool-cases, Option-cases, eq_refl,
  EndsSegment, strip_sound, ◌↔◌, if◌then◌else◌, ◌≢◌, inl, inr,
}
use wop.Platform.{Platform}
use wop.Http.{Request, Response, send_error, check_auth}
use wop.Memory.Host.{Host}
use wop.Memory.Router.{
  Endpoint, discovery, open_api, events_poll, events_sse, debug_bundle, cancel, snapshot, nowhere,
  run_pattern, endpoint,
}

-- The endpoints that ask for a credential.
abbrev pub is_protected : Endpoint → Bool
is_protected discovery = false
is_protected open_api = false
is_protected nowhere = false
is_protected _ = true

module _ (p : Platform) where
  pub status-check_auth :
      (key : String) (req : Request) (r : Response) → check_auth p key req ≡ some r → r.status ≡ 401
  unfolding check_auth send_error
  status-check_auth key req r e = ground arith

none≢some {ℓ} : {A : Type ℓ} {a : A} → ◌≡◌ {A = Option A} none (some a) → ⊥
none≢some e = cc

module _ (p : Platform) (key : String) (req : Request) where
  -- The header holds this token, behind `Bearer `, and the trimmed token is the API key.
  abbrev pub IsBearer : String → Type 0
  IsBearer token = (req.authorization ≡ some (String.◌++◌ "Bearer " token)) × (p.trim token ≡ key)

  check_auth_complete : (token : String) → IsBearer token → check_auth p key req ≡ none
  unfolding check_auth
  check_auth_complete token (header, fits) =
      rw (header, strip-append "Bearer " token, fits, eq_refl key)

  check_auth_sound : check_auth p key req ≡ none → (token : String) × IsBearer token
  unfolding check_auth
  check_auth_sound passed = elim (Option-cases req.authorization) [
    | inl missing ↦ absurd (ground (arith, missing))
    | inr (auth, given) ↦ elim (Option-cases (strip "Bearer " auth)) [
      | inl malformed ↦ absurd (ground (arith, given, malformed))
      | inr (token, cut) ↦ (
        token,
        (
          given ∙ ap {B = Option String} some (strip_sound "Bearer " auth token cut),
          ground (arith, given, cut, eq_iff (p.trim token) key),
        ),
      )
    ]
  ]

  -- `checkAuth` lets exactly the requests through whose header is `Bearer `, followed by a text that
  -- is the API key once trimmed.
  pub check_auth_iff : (check_auth p key req ≡ none) ↔ ((token : String) × IsBearer token)
  check_auth_iff = (check_auth_sound, λ t. check_auth_complete t.0 t.1)

-- The path of a run's endpoint, as the SDKs write it.
abbrev pub run_path : String → String → String
run_path id suffix = String.◌++◌ "/v1/runs/" (String.◌++◌ id suffix)

module _ (id : String) (nonempty : id ≢ "") (plain : HasNoSlash id) where
  run_pattern-run_path :
      (suffix suffix' : String)
      → EndsSegment suffix
      → run_pattern suffix' (run_path id suffix) ≡ (if suffix == suffix' then some id else none)
  unfolding run_pattern
  run_pattern-run_path suffix suffix' e =
      rw (strip-append "/v1/runs/" (String.◌++◌ id suffix), span_segment-append id suffix plain e)
        (ground (arith, eq_iff id ""))

  not_fixed : (suffix k : String) → strip "/v1/runs/" k ≡ none → (run_path id suffix == k) ≡ false
  not_fixed suffix k fixed = elim (Bool-cases (run_path id suffix == k)) [
    | inl same ↦
        let e = (eq_iff (run_path id suffix) k).0 same in
        absurd (
          none≢some (
            sym fixed
            ∙ sym (ap (strip "/v1/runs/") e)
            ∙ strip-append "/v1/runs/" (String.◌++◌ id suffix)))
    | inr other ↦ other
  ]

  -- What the tests of `route` give for such a path.
  record Tests (suffix : String) : Type 0 where
    not_discovery : (run_path id suffix == "/.well-known/wop") ≡ false
    not_open_api : (run_path id suffix == "/v1/openapi.json") ≡ false
    not_create : (run_path id suffix == "/v1/runs") ≡ false
    poll :
        run_pattern "/events/poll" (run_path id suffix)
        ≡ (if suffix == "/events/poll" then some id else none)
    sse :
        run_pattern "/events" (run_path id suffix) ≡ (if suffix == "/events" then some id else none)
    bundle :
        run_pattern "/debug-bundle" (run_path id suffix)
        ≡ (if suffix == "/debug-bundle" then some id else none)
    cancelling :
        run_pattern "/cancel" (run_path id suffix) ≡ (if suffix == "/cancel" then some id else none)
    plain_id : run_pattern "" (run_path id suffix) ≡ (if suffix == "" then some id else none)

  tests : (suffix : String) → EndsSegment suffix → Tests suffix
  unfolding strip
  tests suffix e = record {
    not_discovery = not_fixed suffix "/.well-known/wop" refl;
    not_open_api = not_fixed suffix "/v1/openapi.json" refl;
    not_create = not_fixed suffix "/v1/runs" refl;
    poll = run_pattern-run_path suffix "/events/poll" e;
    sse = run_pattern-run_path suffix "/events" e;
    bundle = run_pattern-run_path suffix "/debug-bundle" e;
    cancelling = run_pattern-run_path suffix "/cancel" e;
    plain_id = run_pattern-run_path suffix "" e;
  }

  -- Every endpoint of a run is reached by its path and method, and the handler is given the id.
  pub endpoint-run_path :
      (endpoint "GET" (run_path id "") ≡ snapshot id)
      × (endpoint "GET" (run_path id "/events/poll") ≡ events_poll id)
      × (endpoint "GET" (run_path id "/events") ≡ events_sse id)
      × (endpoint "GET" (run_path id "/debug-bundle") ≡ debug_bundle id)
      × (endpoint "POST" (run_path id "/cancel") ≡ cancel id)
  unfolding endpoint
  endpoint-run_path = (
    ground (arith, tests "" tt),
    ground (arith, tests "/events/poll" refl),
    ground (arith, tests "/events" refl),
    ground (arith, tests "/debug-bundle" refl),
    ground (arith, tests "/cancel" refl),
  )
