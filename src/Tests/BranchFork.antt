-- ===== src/Tests/BranchFork.antt =====
-- The example client of examples/branch-fork against a host that forks.
use wop.Prelude.{map, ℕ, true, String, ◌≡◌, refl, Option, none, some, List, [], ◌∷◌}
use wop.Json.{Json, bool, str, object, array}
use wop.Suite.Polling.{is_ended, read_status, has_status}
use wop.BranchFork.{
  exchanges, request, Config, Sent, Answer, broken, answered, Clock, Stage, exited, forked, run,
  step, begin, is_over,
}
use wop.BranchFork.Session.{Session}
use wop.BranchFork.Forked.{forked-Session}
use wop.Tests.{platform}

abbrev encode : Option Json → Option String
encode (some (str s)) = some s
encode v = none

abbrev at_time : ℕ → Clock
at_time t = record { at = t; now = t }

abbrev one : String → String → Json
one key value = object ((key, str value) ∷ [])

abbrev capabilities : Json
capabilities =
    object (
      ("replay", object (("supported", bool true) ∷ ("modes", array (str "branch" ∷ [])) ∷ []))
      ∷ [])

abbrev answers : List (Answer × Clock)
answers =
    (answered 200 (some capabilities), at_time 0)
    ∷ (answered 201 (some (one "runId" "r1")), at_time 10)
    ∷ (answered 200 (some (one "status" "running")), at_time 300)
    ∷ (answered 200 (some (one "status" "completed")), at_time 600)
    ∷ (answered 201 (some (one "runId" "r2")), at_time 610)
    ∷ (answered 200 (some (one "status" "completed")), at_time 620)
    ∷ []

forks :
    run platform encode answers (begin "http://host" "key")
    ≡ exited (forked (some (str "r1")) (some (str "r2")))
unfolding run step begin is_over is_ended read_status has_status
forks = refl

abbrev config : Config
config = record { idempotency_key = "k"; workflow_id = "w" }

forked-Session_example :
    Session platform encode config
      (some (str "r1"))
      (some (str "r2"))
      (exchanges platform encode config answers (begin "http://host" "key"))
forked-Session_example =
    (forked-Session platform encode config (some (str "r1")) (some (str "r2")) answers "http://host"
        "key").0
      forks

-- What is sent: the discovery, the creation, two snapshots of the parent, the fork, one of the fork.
paths :
    map
      (λ (e : Sent × Answer). e.0.path)
      (exchanges platform encode config answers (begin "http://host" "key"))
    ≡ "/.well-known/wop" ∷ "/v1/runs" ∷ "/v1/runs/r1" ∷ "/v1/runs/r1" ∷ "/v1/runs/r1:fork"
      ∷ "/v1/runs/r2" ∷ []
unfolding exchanges request step begin is_over is_ended read_status has_status
paths = refl

-- A fork that has the id of its parent, and a host that is silent until the deadline.
not_distinct :
    run platform encode
      ((answered 201 (some (one "runId" "r1")), at_time 610) ∷ [])
      (Stage.forking (some (str "r1")))
    ≡ exited wop.BranchFork.Exit.failed
unfolding run step
not_distinct = refl

too_late :
    run platform encode
      ((answered 503 none, at_time 400) ∷ (answered 503 none, at_time 30010) ∷ [])
      (Stage.polling_parent (some (str "r1")) 30010)
    ≡ exited wop.BranchFork.Exit.failed
unfolding run step is_over
too_late = refl
