-- ===== src/BranchFork/Session.antt =====
-- What a run of the example client examples/branch-fork/branch-fork.mjs sends and is answered when it
-- verifies a fork, said without its stages.
use Prim.Native.String
use wop.Prelude.{
  ℕ, String, ◌≡◌, ◌≢◌, Bool, true, false, ◌||◌, ◌&&◌, Option, some, List, [], ◌∷◌, ◌⊎◌, any, eqb,
  ltb, leb, ◌==◌,
}
use wop.Json.{Json, Items, bool, str, arr, num, nat_num, object, items, null}
use wop.Platform.{Platform}
use wop.BranchFork.{
  Answer, answered, Sent, Config, strictly_equal, is_truthy, or_null, property, run_id_of, run_path,
  get, post,
}

-- The values of `status` of a run that has ended.
abbrev pub is_final : String → Bool
is_final s = s == "completed" || (s == "failed" || s == "cancelled")

module _ (p : Platform) (encode : Option Json → Option String) where
  -- The property of a value.
  abbrev pub at : String → Json → Option Json
  at key v = property p encode key v

  -- The host offers to fork a run in the mode `branch`.
  abbrev pub IsOffer : Answer → Type 0
  IsOffer a =
      (status : ℕ) × (caps : Json) × (replay : Json) × (modes : Items) × (a
        ≡ answered status (some caps))
      × (caps ≢ null)
      × (replay ≢ null)
      × ((leb 200 status && ltb status 300) ≡ true)
      × (at "replay" caps ≡ some replay)
      × (at "supported" replay ≡ some (bool true))
      × (at "modes" replay ≡ some (arr modes))
      × (any (λ (v : Json). strictly_equal (some v) (some (str "branch"))) (items modes) ≡ true)

  -- A run was created with this id, or forked with one that is not the parent's.
  abbrev pub IsCreation : Option Json → Answer → Type 0
  IsCreation id a =
      (json : Option Json) × (a ≡ answered 201 json) × (run_id_of p encode (or_null json) ≡ some id)

  abbrev pub IsFork : (parent id : Option Json) → Answer → Type 0
  IsFork parent id a =
      (strictly_equal id parent ≡ false)
      × (status : ℕ) × (json : Option Json) × (a ≡ answered status json)
      × ((eqb status 200 || eqb status 201) ≡ true)
      × (run_id_of p encode (or_null json) ≡ some id)

  -- A snapshot of a run with this final status.
  abbrev pub IsSnapshot : String → Answer → Type 0
  IsSnapshot s a =
      (v : Json) × (a ≡ answered 200 (some v))
      × (is_truthy v ≡ true)
      × (at "status" v ≡ some (str s))
      × (is_final s ≡ true)

  abbrev pub IsEnd : Answer → Type 0
  IsEnd a = (s : String) × IsSnapshot s a

  -- An answer, which is no snapshot of an ended run.
  abbrev pub IsWait : Answer → Type 0
  IsWait a = (status : ℕ) × (json : Option Json) × (a ≡ answered status json) × (IsEnd a → ⊥)

  -- This request is sent again and again, until an answer is such; then the rest is such.
  abbrev pub Polled :
      Sent → (Answer → Type 0) → (List (Sent × Answer) → Type 0) → List (Sent × Answer) → Type 0
  Polled sent Last Rest [] = ⊥
  Polled sent Last Rest ((s, a) ∷ es) =
      (s ≡ sent) × ((Last a × Rest es) ⊎ (IsWait a × Polled sent Last Rest es))

  -- This request is sent once, the answer is such, and the rest too.
  abbrev pub Sends :
      Sent → (Answer → Type 0) → (List (Sent × Answer) → Type 0) → List (Sent × Answer) → Type 0
  Sends sent Such Rest [] = ⊥
  Sends sent Such Rest ((s, a) ∷ es) = (s ≡ sent) × Such a × Rest es

  abbrev pub fork_sent : Config → Option Json → Sent
  fork_sent c id =
      post p encode (String.◌++◌ (run_path p encode id) ":fork")
        (String.◌++◌ c.idempotency_key "-fork")
        (object (("mode", str "branch") ∷ ("fromSeq", num (nat_num 0)) ∷ []))

  module _ (c : Config) (parent fork : Option Json) where
    -- The session from its end to its beginning.
    abbrev pub Ends : List (Sent × Answer) → Type 0
    Ends es = es ≡ []

    abbrev pub WaitsForFork : List (Sent × Answer) → Type 0
    WaitsForFork = Polled (get p encode (run_path p encode fork)) (IsSnapshot "completed") Ends

    abbrev pub Forks : List (Sent × Answer) → Type 0
    Forks = Sends (fork_sent c parent) (IsFork parent fork) WaitsForFork

    abbrev pub WaitsForParent : List (Sent × Answer) → Type 0
    WaitsForParent = Polled (get p encode (run_path p encode parent)) IsEnd Forks

    abbrev pub Creates : List (Sent × Answer) → Type 0
    Creates =
        Sends
          (post p encode "/v1/runs" c.idempotency_key
            (object (("workflowId", str c.workflow_id) ∷ [])))
          (IsCreation parent) WaitsForParent

    abbrev pub Session : List (Sent × Answer) → Type 0
    Session = Sends (get p encode "/.well-known/wop") IsOffer Creates
