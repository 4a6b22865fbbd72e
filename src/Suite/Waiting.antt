-- ===== src/Suite/Waiting.antt =====
-- How long `pollUntil` of conformance/src/lib/polling.ts goes on, and what it ends with.
use wop.Prelude.{
  ℕ, zero, suc, ◌+◌, ◌*◌, ◌≤◌, ◌<◌, ◌≡◌, refl, Bool, true, false, Option, none, some, ltb, arith,
  if_cases,
}
use wop.Json.{Json}
use wop.Suite.Polling.{
  Answer, Attempt, snapshot, threw, get_run, Polled, satisfied, timed_out, out_of_fuel,
  after_attempt, poll_from, poll_until, poll_interval_ms,
}

module _ (now : ℕ → ℕ) (answer : ℕ → Answer) (predicate : Option Json → Bool) (deadline : ℕ) where
  -- The attempt gave no snapshot that satisfies the predicate.
  abbrev pub Misses : Attempt → Type 0
  Misses threw = Unit
  Misses (snapshot s) = predicate s ≡ false

  -- All attempts from one number to below another did not.
  abbrev pub AllMiss : ℕ → ℕ → Type 0
  AllMiss k zero = Unit
  AllMiss k (suc n) = Misses (get_run (answer k)) × AllMiss (suc k) n

  -- What the end of the loop says of the attempts, from the k-th on: the snapshot is that of the first
  -- one that satisfies the predicate, and it was begun before the deadline; or there was none until
  -- the clock showed the deadline.
  abbrev pub Explains : ℕ → Polled → Type 0
  Explains k (satisfied s) =
      (n : ℕ) × AllMiss k n
      × (now (k + n) < deadline)
      × (get_run (answer (k + n)) ≡ snapshot s)
      × (predicate s ≡ true)
  Explains k (timed_out last) = (n : ℕ) × AllMiss k n × (deadline ≤ now (k + n))
  Explains k out_of_fuel = ⊥

  -- One more attempt in front of those.
  Explains-earlier :
      (k : ℕ) (r : Polled) → Misses (get_run (answer k)) → Explains (suc k) r → Explains k r
  Explains-earlier k (satisfied s) miss (n, misses, early, gave, holds) =
      let same : suc k + n ≡ k + suc n = omega arith in
      (suc n, (miss, misses), rw same at early, rw same at gave, holds)
  Explains-earlier k (timed_out last) miss (n, misses, late) =
      let same : suc k + n ≡ k + suc n = omega arith in (suc n, (miss, misses), rw same at late)
  Explains-earlier k out_of_fuel miss none_left = absurd none_left

  -- What an attempt before the deadline leads to.
  attempt-Explains :
      (k : ℕ) (last : Option (Option Json)) (next : Option (Option Json) → Polled) (a : Attempt)
      → get_run (answer k) ≡ a
      → now k < deadline
      → ((l : Option (Option Json)) → Explains (suc k) (next l))
      → Explains k (after_attempt now answer predicate deadline a last next)
  attempt-Explains k last next threw e early rest =
      Explains-earlier k (next last) (rw e tt) (rest last)
  attempt-Explains k last next (snapshot s) e early rest =
      if_cases (Explains k) (predicate s) _ _
        (λ holds.
          let same : k ≡ k + 0 = omega arith in (0, tt, rw same at early, rw same at e, holds))
        (λ fails. Explains-earlier k (next (some s)) (rw e fails) (rest (some s)))

  module _ (slow : (i : ℕ) → now i + poll_interval_ms ≤ now (suc i)) where
    poll_from-Explains :
        (fuel k : ℕ) (last : Option (Option Json))
        → deadline ≤ now k + fuel * poll_interval_ms
        → Explains k (poll_from now answer predicate deadline (suc fuel) k last)
    unfolding poll_from
    poll_from-Explains zero k last h =
        if_cases (Explains k) (ltb (now k) deadline) _ _
          (λ early. absurd (ground (arith, early, h)))
          (λ late.
            let same : k ≡ k + 0 = omega arith in
            let over : deadline ≤ now k = omega (arith, h) in (0, tt, rw same at over))
    poll_from-Explains (suc fuel) k last h =
        if_cases (Explains k) (ltb (now k) deadline) _ _
          (λ early.
            attempt-Explains k last (poll_from now answer predicate deadline (suc fuel) (suc k))
              (get_run (answer k)) refl (ground (arith, early))
              (λ l. poll_from-Explains fuel (suc k) l (omega (arith, h, slow k))))
          (λ late.
            let same : k ≡ k + 0 = omega arith in
            let over : deadline ≤ now k = ground (arith, late) in (0, tt, rw same at over))

-- Where the clock shows at least the interval more at each test of the loop, `pollUntil` ends by the
-- first test after the timeout: with fuel for one test more than the intervals that the timeout holds,
-- it ends with the snapshot of the first attempt that satisfies the predicate, begun before the
-- deadline, or with the error, and then no attempt did until the clock showed the deadline.
pub poll_until_ends :
    (now : ℕ → ℕ) (answer : ℕ → Answer) (predicate : Option Json → Bool) (start timeout_ms fuel : ℕ)
    → ((i : ℕ) → now i + poll_interval_ms ≤ now (suc i))
    → start ≤ now 0
    → timeout_ms ≤ fuel * poll_interval_ms
    → Explains now answer predicate
        (start + timeout_ms)
        0
        (poll_until now answer predicate start timeout_ms (suc fuel))
unfolding poll_until
poll_until_ends now answer predicate start timeout_ms fuel slow begun enough =
    poll_from-Explains now answer predicate (start + timeout_ms) slow fuel 0 none
      (omega (arith, begun, enough))
