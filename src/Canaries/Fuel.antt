-- ===== src/Canaries/Fuel.antt =====
-- The fuel of the second pass is enough (`findCanaryLeaks` of conformance/src/lib/canaries.ts).
use wop.Prelude.{
  ℕ, zero, suc, ◌+◌, ◌≤◌, ◌≡◌, refl, List, [], ◌∷◌, length, arith, Option-cases, inl, inr,
}
use wop.Sse.Parser.{Text}
use wop.Canaries.{
  index_of, drop, CanaryLeak, marker, canaries, exact_leaks, marker_leaks, find_canary_leaks,
}

length-drop : (n : ℕ) (t : Text) → length (drop n t) ≤ length t
length-drop zero t = omega arith
length-drop (suc n) [] = omega arith
length-drop (suc n) (c ∷ t) = omega (arith, length-drop n t)

-- A round leaves a shorter text.
drop_less : (n c : ℕ) (t : Text) → 1 ≤ n → length (drop n (c ∷ t)) ≤ length t
drop_less zero c t h = absurd (omega (arith, h))
drop_less (suc n) c t h = length-drop n t

marker_leaks_enough :
    (f g from : ℕ) (t : Text) (leaks : List CanaryLeak)
    → length t ≤ f
    → length t ≤ g
    → marker_leaks f from t leaks ≡ marker_leaks g from t leaks
unfolding marker_leaks index_of
marker_leaks_enough zero zero from t leaks hf hg = refl
marker_leaks_enough zero (suc g) from [] leaks hf hg = refl
marker_leaks_enough zero (suc g) from (c ∷ t) leaks hf hg = absurd (omega (arith, hf))
marker_leaks_enough (suc f) zero from [] leaks hf hg = refl
marker_leaks_enough (suc f) zero from (c ∷ t) leaks hf hg = absurd (omega (arith, hg))
marker_leaks_enough (suc f) (suc g) from [] leaks hf hg = refl
marker_leaks_enough (suc f) (suc g) from (c ∷ t) leaks hf hg =
    elim (Option-cases (index_of marker (c ∷ t))) [
      | inl absent ↦ rw absent refl
      | inr (k, found) ↦
          let less = drop_less (k + length marker) c t (omega arith) in
          rw found (
            marker_leaks_enough f g _ (drop (k + length marker) (c ∷ t)) _ (omega (arith, less, hf))
              (omega (arith, less, hg)))
    ]

-- The loop of the detector's second pass ends within as many rounds as the text has characters: with
-- more rounds it finds the same.
pub find_canary_leaks_enough :
    (fuel : ℕ) (t : Text)
    → length t ≤ fuel
    → marker_leaks fuel 0 t (exact_leaks canaries t) ≡ find_canary_leaks t
unfolding find_canary_leaks
find_canary_leaks_enough fuel t h =
    marker_leaks_enough fuel (length t) 0 t (exact_leaks canaries t) h (omega arith)
