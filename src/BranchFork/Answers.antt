-- ===== src/BranchFork/Answers.antt =====
-- What the tests of the example client examples/branch-fork/branch-fork.mjs say of an answer.
use wop.Prelude.{
  ℕ, String, ◌≡◌, ◌≢◌, refl, ap, ◌∙◌, sym, Bool, true, false, ◌&&◌, Option, none, some, any, ltb,
  leb, ◌==◌, eq_iff, arith,
}
use wop.Json.{Json, Items, bool, str, arr, num, obj, items, null}
use wop.Platform.{Platform}
use wop.Suite.Polling.{is_ended, read_status, has_status}
use wop.BranchFork.{
  Stage, answered, strictly_equal, is_truthy, or_null, is_over, check_profile, check_replay,
  advertises_branch, creating, exited, skipped,
}
use wop.BranchFork.Session.{is_final, IsOffer, IsSnapshot, IsEnd, at}

module _ (p : Platform) (encode : Option Json → Option String) where
  -- What the tests of the program say of an answer.
  abbrev final_of : Option Json → Bool
  final_of (some (str s)) = is_final s
  final_of _ = false

  is_ended-final :
      (v : Json) → is_truthy v ≡ true → is_ended p (some v) ≡ final_of (at p encode "status" v)
  unfolding is_ended read_status
  is_ended-final v h = ground (arith, h)

  -- The text of a status that passes a test.
  final_text :
      (o : Option Json)
      → final_of o ≡ true
      → (s : String) × (o ≡ some (str s)) × (is_final s ≡ true)
  final_text none h = cc
  final_text (some (str s)) h = (s, refl, h)
  final_text (some other) h = cc

  abbrev completed_of : Option Json → Bool
  completed_of (some (str s)) = s == "completed"
  completed_of _ = false

  pub is_over-IsEnd :
      (status : ℕ) (json : Option Json)
      → is_over p encode status json ≡ true
      → IsEnd p encode (answered status json)
  unfolding is_over
  is_over-IsEnd status none h = absurd (ground (arith, h))
  is_over-IsEnd status (some v) h =
      let is_200 : status ≡ 200 = ground (arith, h) in
      let truthy : is_truthy v ≡ true = ground (arith, h) in
      let ended : is_ended p (some v) ≡ true = ground (arith, h) in
      let (s, text, final) =
        final_text (at p encode "status" v) (sym (is_ended-final v truthy) ∙ ended) in
      (s, (v, ap (λ (k : ℕ). answered k (some v)) is_200, truthy, text, final))

  pub IsEnd-is_over :
      (status : ℕ) (json : Option Json)
      → IsEnd p encode (answered status json)
      → is_over p encode status json ≡ true
  unfolding is_over
  IsEnd-is_over status json (s, (v, e, truthy, text, final)) =
      let is_200 : status ≡ 200 = ground (arith, e) in
      let body : json ≡ some v = ground (arith, e) in
      let ended : is_ended p (some v) ≡ true = is_ended-final v truthy ∙ ap final_of text ∙ final in
      rw (is_200, body, truthy, ended) refl

  none-is_over : (status : ℕ) → is_over p encode status none ≡ true → ⊥
  unfolding is_over
  none-is_over status h = ground (arith, h)

  completed_text : (o : Option Json) → completed_of o ≡ true → o ≡ some (str "completed")
  completed_text none h = cc
  completed_text (some (str s)) h = ap (λ (t : String). some (str t)) ((eq_iff s "completed").0 h)
  completed_text (some other) h = cc

  -- For null the test fails, and so does reading a property.
  pub has_status-completed :
      (v : Json)
      → is_truthy v ≡ true
      → has_status p "completed" (some v) ≡ completed_of (at p encode "status" v)
  unfolding has_status read_status
  has_status-completed v h = ground (arith, h)

  pub completed-IsSnapshot :
      (status : ℕ) (json : Option Json)
      → is_over p encode status json ≡ true
      → has_status p "completed" (some (or_null json)) ≡ true
      → IsSnapshot p encode "completed" (answered status json)
  completed-IsSnapshot status none h s = absurd (none-is_over status h)
  completed-IsSnapshot status (some v) h s =
      let (t, (w, e, truthy, text, final)) = is_over-IsEnd status (some v) h in
      let same : v ≡ w = ground (arith, e) in
      let done : completed_of (at p encode "status" v) ≡ true =
        sym (has_status-completed v (ap is_truthy same ∙ truthy)) ∙ s in
      (
        v,
        e ∙ ap (λ (u : Json). answered 200 (some u)) (sym same),
        ap is_truthy same ∙ truthy,
        completed_text (at p encode "status" v) done,
        refl,
      )

  true_text : (o : Option Json) → strictly_equal o (some (bool true)) ≡ true → o ≡ some (bool true)
  true_text o h = ground (arith, h)

  modes_of :
      (o : Option Json)
      → advertises_branch p encode o ≡ true
      → (modes : Items) × (o ≡ some (arr modes))
        × (any (λ (v : Json). strictly_equal (some v) (some (str "branch"))) (items modes) ≡ true)
  modes_of none h = cc
  modes_of (some (arr vs)) h = (vs, refl, h)
  modes_of (some other) h = cc

  replay_checked :
      (replay : Json)
      → check_replay p encode replay ≡ creating
      → (at p encode "supported" replay ≡ some (bool true))
        × ((modes : Items) × (at p encode "modes" replay ≡ some (arr modes))
            × (any (λ (v : Json). strictly_equal (some v) (some (str "branch"))) (items modes)
                ≡ true))
  replay_checked replay h =
      let supported : strictly_equal (at p encode "supported" replay) (some (bool true)) ≡ true =
        ground (arith, h) in
      let branch : advertises_branch p encode (at p encode "modes" replay) ≡ true =
        ground (arith, h) in
      (
        true_text (at p encode "supported" replay) supported,
        modes_of (at p encode "modes" replay) branch,
      )

  abbrev pub checked_replay : Option Json → Stage
  checked_replay none = exited skipped
  checked_replay (some null) = exited skipped
  checked_replay (some replay) = check_replay p encode replay

  chosen :
      (o : Option Json)
      → checked_replay o ≡ creating
      → (replay : Json) × (o ≡ some replay)
        × (replay ≢ null)
        × (check_replay p encode replay ≡ creating)
  chosen none h = cc
  chosen (some null) h = cc
  chosen (some (bool b)) h = (bool b, refl, (λ e. cc), h)
  chosen (some (num n)) h = (num n, refl, (λ e. cc), h)
  chosen (some (str s)) h = (str s, refl, (λ e. cc), h)
  chosen (some (arr vs)) h = (arr vs, refl, (λ e. cc), h)
  chosen (some (obj fs)) h = (obj fs, refl, (λ e. cc), h)

  pub checked :
      (caps : Json)
      → caps ≢ null
      → check_profile p encode caps ≡ checked_replay (at p encode "replay" caps)
  checked null h = absurd (h refl)
  checked (bool b) h = ground arith
  checked (num n) h = ground arith
  checked (str s) h = ground arith
  checked (arr vs) h = ground arith
  checked (obj fs) h = ground arith

  replay_of :
      (caps : Json)
      → check_profile p encode caps ≡ creating
      → caps ≢ null
      → (replay : Json) × (at p encode "replay" caps ≡ some replay)
        × (replay ≢ null)
        × (check_replay p encode replay ≡ creating)
  replay_of caps h full = chosen (at p encode "replay" caps) (sym (checked caps full) ∙ h)

  creating_full : (caps : Json) → check_profile p encode caps ≡ creating → caps ≢ null
  creating_full caps h e =
      let at_null : check_profile p encode null ≡ creating =
        ap (check_profile p encode) (sym e) ∙ h in
      cc

  pub check_profile-IsOffer :
      (status : ℕ) (caps : Json)
      → (leb 200 status && ltb status 300) ≡ true
      → check_profile p encode caps ≡ creating
      → IsOffer p encode (answered status (some caps))
  check_profile-IsOffer status caps ok h =
      let full = creating_full caps h in
      let (replay, offered, given_replay, rest) = replay_of caps h full in
      let (supported, (modes, given, branch)) = replay_checked replay rest in
      (status, caps, replay, modes, refl, full, given_replay, ok, offered, supported, given, branch)
