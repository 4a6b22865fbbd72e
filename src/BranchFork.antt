-- ===== src/BranchFork.antt =====
-- The example client examples/branch-fork/branch-fork.mjs, as a process that waits for the answer to
-- each request: what it makes of an answer, with what the clock shows then. The texts that it writes, and
-- the conversions in them, are left out.
pub mod Session
pub mod Answers
pub mod Outcomes
pub mod Steps
pub mod Forked
use Prim.Native.String
use wop.Prelude.{
  ℕ, suc, ◌+◌, ◌*◌, String, Bool, true, false, not, ◌&&◌, ◌||◌, Option, none, some, List, [], ◌∷◌,
  any, eqb, ltb, leb, ◌==◌, if◌then◌else◌, maybe,
}
use wop.Json.{Json, null, bool, num, str, arr, obj, finite, nat_num, object, items, find_field}
use wop.Platform.{Platform}
use wop.Suite.Polling.{is_ended, has_status}

-- A fetch is rejected, or gives a status and the JSON of the body, `none` where `res.json()` is rejected.
pub data Answer : Type 0 where
  broken : Answer
  answered : (status : ℕ) → (json : Option Json) → Answer

-- How the program ends: with a skip, with a failure, or with the two runs that it has verified.
pub data Exit : Type 0 where
  skipped failed : Exit
  forked : (parent fork : Option Json) → Exit

-- The status of the process.
abbrev pub exit_code : Exit → ℕ
exit_code skipped = 0
exit_code failed = 1
exit_code (forked parent fork) = 0

-- Where `main` waits; an id is the value of `runId`, `none` where it is undefined.
pub data Stage : Type 0 where
  discovering creating : Stage
  polling_parent : (parent : Option Json) → (deadline : ℕ) → Stage
  forking : (parent : Option Json) → Stage
  polling_fork : (parent fork : Option Json) → (deadline : ℕ) → Stage
  exited : Exit → Stage

-- What `Date.now()` gives for a deadline and at the next test of the loop.
pub record Clock : Type 0 where
  pub at : ℕ
  pub now : ℕ

-- A request of `http` or of the discovery, which has no key.
pub record Sent : Type 0 where
  pub method : String
  pub path : String
  pub idempotency_key : Option String
  pub body : Option Json

-- `===` of values from two texts: objects and arrays are never the same.
abbrev pub strictly_equal : Option Json → Option Json → Bool
strictly_equal none none = true
strictly_equal (some null) (some null) = true
strictly_equal (some (bool a)) (some (bool b)) = (a && b) || (not a && not b)
strictly_equal (some (str a)) (some (str b)) = a == b
strictly_equal (some (num (finite s n d))) (some (num (finite t m e))) =
    eqb (n * suc e) (m * suc d) && (eqb n 0 || ((s && t) || (not s && not t)))
strictly_equal _ _ = false

-- What a JSON value counts for as a condition.
abbrev pub is_truthy : Json → Bool
is_truthy null = false
is_truthy (bool b) = b
is_truthy (str s) = not (s == "")
is_truthy (num (finite s n d)) = not (eqb n 0)
is_truthy _ = true

-- `res.json().catch(() => null)`
abbrev pub or_null : Option Json → Json
or_null none = null
or_null (some v) = v

-- `timeoutMs` of `pollUntil`
abbrev timeout_ms : ℕ
timeout_ms = 30000

-- `idemKey` and `WORKFLOW_ID`
pub record Config : Type 0 where
  pub idempotency_key : String
  pub workflow_id : String

module _ (p : Platform) (encode_uri_component : Option Json → Option String) where
  abbrev pub run_path : Option Json → String
  run_path id = String.◌++◌ "/v1/runs/" (maybe (encode_uri_component id) "" (λ text. text))

  abbrev pub get : String → Sent
  get path = record { method = "GET"; path = path; idempotency_key = none; body = none }

  abbrev pub post : String → String → Json → Sent
  post path key body = record {
    method = "POST";
    path = path;
    idempotency_key = some key;
    body = some body;
  }

  -- The request that `main` waits for; before one with an id, `loop_head` has seen that it can be written.
  unfoldable pub request : Config → Stage → Option Sent
  request c discovering = some (get "/.well-known/wop")
  request c creating =
      some (post "/v1/runs" c.idempotency_key (object (("workflowId", str c.workflow_id) ∷ [])))
  request c (polling_parent parent deadline) = some (get (run_path parent))
  request c (forking parent) = some (
      post (String.◌++◌ (run_path parent) ":fork") (String.◌++◌ c.idempotency_key "-fork")
        (object (("mode", str "branch") ∷ ("fromSeq", num (nat_num 0)) ∷ [])))
  request c (polling_fork parent fork deadline) = some (get (run_path fork))
  request c (exited e) = none

  -- The property of a value that is not null.
  abbrev pub property : String → Json → Option Json
  property key (obj fs) = find_field key fs
  property key v = p.exotic_property v (str key)

  -- `json.runId`, which throws for null
  abbrev pub run_id_of : Json → Option (Option Json)
  run_id_of null = none
  run_id_of v = some (property "runId" v)

  abbrev pub advertises_branch : Option Json → Bool
  advertises_branch (some (arr vs)) =
      any (λ (v : Json). strictly_equal (some v) (some (str "branch"))) (items vs)
  advertises_branch _ = false

  -- `replay.supported !== true`, and `modes.includes('branch')`
  abbrev pub check_replay : Json → Stage
  check_replay replay =
      if strictly_equal (property "supported" replay) (some (bool true))
      then if advertises_branch (property "modes" replay) then creating else exited skipped
      else exited skipped

  -- From `const replay = caps.replay ?? {}` on.
  abbrev pub check_profile : Json → Stage
  check_profile null = exited failed
  check_profile caps = elim (property "replay" caps) [
    | none ↦ exited skipped
    | some null ↦ exited skipped
    | some replay ↦ check_replay replay
  ]

  -- The head of the loop of `pollUntil`, which throws after the deadline; so does the path of its
  -- request where the id cannot be written in it.
  abbrev pub loop_head : Option Json → ℕ → ℕ → Stage → Stage
  loop_head id deadline now waiting =
      maybe (encode_uri_component id) (exited failed)
        (λ text. if ltb now deadline then waiting else exited failed)

  -- `if (res.status === 200 && res.json)` and the predicate
  unfoldable pub is_over : ℕ → Option Json → Bool
  is_over status json =
      eqb status 200 && (is_truthy (or_null json) && is_ended p (some (or_null json)))

  -- The call of `pollUntil` for the parent, and for the fork once it is another run.
  abbrev pub poll_parent : Clock → Option Json → Stage
  poll_parent clock parent =
      loop_head parent (clock.at + timeout_ms) clock.now
        (polling_parent parent (clock.at + timeout_ms))

  abbrev pub poll_fork : Clock → Option Json → Option Json → Stage
  poll_fork clock parent fork =
      if strictly_equal fork parent
      then exited failed
      else loop_head fork (clock.at + timeout_ms) clock.now
          (polling_fork parent fork (clock.at + timeout_ms))

  -- What `main` does with an answer, up to its next request or its end.
  unfoldable pub step : Stage → Answer → Clock → Stage
  unfolding is_over
  step (exited e) a clock = exited e
  step stage broken clock = exited failed
  step discovering (answered status json) clock =
      if leb 200 status && ltb status 300
      then maybe json (exited failed) check_profile
      else exited failed
  step creating (answered status json) clock =
      if eqb status 404
      then exited skipped
      else if eqb status 201
      then maybe (run_id_of (or_null json)) (exited failed) (poll_parent clock)
      else exited failed
  step (polling_parent parent deadline) (answered status json) clock =
      if is_over status json
      then forking parent
      else loop_head parent deadline clock.now (polling_parent parent deadline)
  step (forking parent) (answered status json) clock =
      if eqb status 501
      then exited skipped
      else if eqb status 200 || eqb status 201
      then maybe (run_id_of (or_null json)) (exited failed) (poll_fork clock parent)
      else exited failed
  step (polling_fork parent fork deadline) (answered status json) clock =
      if is_over status json
      then if has_status p "completed" (some (or_null json))
        then exited (forked parent fork)
        else exited failed
      else loop_head fork deadline clock.now (polling_fork parent fork deadline)

  unfoldable pub run : List (Answer × Clock) → Stage → Stage
  run [] stage = stage
  run ((a, clock) ∷ rest) stage = run rest (step stage a clock)

  -- What the program sends, each request with its answer, as long as it runs.
  unfoldable pub exchanges : Config → List (Answer × Clock) → Stage → List (Sent × Answer)
  unfolding request
  exchanges c [] stage = []
  exchanges c ((a, clock) ∷ rest) stage =
      let later = exchanges c rest (step stage a clock) in
      maybe (request c stage) [] (λ sent. (sent, a) ∷ later)

-- The tests of the environment before `main` is called.
unfoldable pub begin : (base_url api_key : String) → Stage
begin base_url api_key =
    if base_url == "" then exited skipped else if api_key == "" then exited failed else discovering
