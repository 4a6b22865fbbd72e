-- ===== src/Tests/Canaries.antt =====
-- Texts with a canary and without one.
use wop.Prelude.{ℕ, String, ◌≡◌, ◌↔◌, refl, none, List, [], ◌∷◌, map}
use wop.Sse.Parser.{Text, codes}
use wop.Canaries.{
  CanaryLeak, marker, index_of, canaries, exact_leaks, marker_leaks, find_canary_leaks,
}
use wop.Canaries.Detection.{find_canary_leaks_iff}

abbrev leaking : Text
leaking =
    codes
      "key=sk-CANARY-WOP-CONFORMANCE-NEVER-SECRET-oai9Lt7Nw2QrZ0aB8mYjPpQe; CANARY-WOP-CONFORMANCE-NEVER-SECRET"

abbrev labels : List CanaryLeak → List (String × ℕ)
labels ls = map (λ (l : CanaryLeak). (l.label, l.position)) ls

-- An exact value, whose marker is not counted again, and a bare marker.
two_leaks : labels (find_canary_leaks leaking) ≡ ("openai", 4) ∷ ("marker-only", 69) ∷ []
unfolding find_canary_leaks exact_leaks marker_leaks canaries index_of
two_leaks = refl

find_canary_leaks_iff_example : (find_canary_leaks leaking ≡ []) ↔ (index_of marker leaking ≡ none)
find_canary_leaks_iff_example = find_canary_leaks_iff leaking
