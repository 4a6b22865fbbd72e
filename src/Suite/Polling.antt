-- ===== src/Suite/Polling.antt =====
-- `getRun` and `pollUntil` of conformance/src/lib/polling.ts. The loop is on fuel; the k-th test of its
-- condition reads the clock `now k`, and the k-th request is answered by `answer k`.
use wop.Prelude.{
  ℕ, zero, suc, ◌+◌, String, Bool, false, ◌||◌, Option, none, some, ltb, eqb, ◌==◌, if◌then◌else◌,
}
use wop.Json.{Json, null, str, obj, find_field}
use wop.Platform.{Platform}
use wop.Suite.Driver.{WopResponse}

-- What a request of `driver.get` gives: a response, or a rejected promise.
pub data Answer : Type 0 where
  answered : WopResponse → Answer
  broken : Answer

-- What `getRun` gives: `res.json` of a response with status 200, else it throws.
pub data Attempt : Type 0 where
  snapshot : Option Json → Attempt
  threw : Attempt

unfoldable pub get_run : Answer → Attempt
get_run broken = threw
get_run (answered res) = if eqb res.status 200 then snapshot res.json else threw

-- The read of `s.status`; of `undefined` and `null` it throws.
pub data Status : Type 0 where
  status : Option Json → Status
  unreadable : Status

-- How the loop ends: with the snapshot, or with the error that shows the last one; or the fuel is
-- spent.
pub data Polled : Type 0 where
  satisfied : Option Json → Polled
  timed_out : (last : Option (Option Json)) → Polled
  out_of_fuel : Polled

module _ (p : Platform) where
  unfoldable pub read_status : Option Json → Status
  read_status none = unreadable
  read_status (some null) = unreadable
  read_status (some (obj fs)) = status (find_field "status" fs)
  read_status (some v) = status (p.exotic_property v (str "status"))

  -- The predicate of `pollUntilTerminal`, `TERMINAL.has(s.status)`, where it does not throw
  unfoldable pub is_ended : Option Json → Bool
  unfolding read_status
  is_ended snap = elim (read_status snap) [
    | status (some (str s)) ↦ s == "completed" || (s == "failed" || s == "cancelled")
    | _ ↦ false
  ]

  -- That of `pollUntilStatus`
  unfoldable pub has_status : String → Option Json → Bool
  unfolding read_status
  has_status expected snap = elim (read_status snap) [
    | status (some (str s)) ↦ s == expected
    | _ ↦ false
  ]

-- `POLL_INTERVAL_MS`
abbrev pub poll_interval_ms : ℕ
poll_interval_ms = 250

module _ (now : ℕ → ℕ) (answer : ℕ → Answer) (predicate : Option Json → Bool) (deadline : ℕ) where
  -- The body of the loop, after the attempt; a predicate that throws is one that fails.
  abbrev pub after_attempt :
      Attempt → Option (Option Json) → (Option (Option Json) → Polled) → Polled
  after_attempt threw last again = again last
  after_attempt (snapshot s) last again = if predicate s then satisfied s else again (some s)

  -- The loop from its k-th test on.
  unfoldable pub poll_from : (fuel k : ℕ) → Option (Option Json) → Polled
  unfolding get_run
  poll_from zero k last = out_of_fuel
  poll_from (suc fuel) k last =
      if ltb (now k) deadline
      then after_attempt (get_run (answer k)) last (poll_from fuel (suc k))
      else timed_out last

-- `pollUntil`; the call of `Date.now()` for the deadline gives `start`.
unfoldable pub poll_until :
    (now : ℕ → ℕ) (answer : ℕ → Answer) (predicate : Option Json → Bool) (start timeout_ms fuel : ℕ)
    → Polled
unfolding poll_from
poll_until now answer predicate start timeout_ms fuel =
    poll_from now answer predicate (start + timeout_ms) fuel 0 none
