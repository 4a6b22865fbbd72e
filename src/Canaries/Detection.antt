-- ===== src/Canaries/Detection.antt =====
-- What the leak detector finds (`findCanaryLeaks` of conformance/src/lib/canaries.ts).
use wop.Prelude.{
  ℕ, String, zero, suc, ◌+◌, ◌≡◌, ◌≢◌, ◌↔◌, refl, ap, subst, ◌∙◌, true, none, some, List, [], ◌∷◌,
  ◌++◌, length, any, All, All-append, arith, if_cases, maybe_cases, Option-cases, inl, inr,
}
use wop.Sse.Parser.{Text, codes}
use wop.Canaries.{
  begins, index_of, drop, Canary, CanaryLeak, marker, around, canaries, exact_leaks, covers, report,
  marker_leaks, find_canary_leaks,
}
use wop.Canaries.Occurrences.{
  begins-front, begins-back, drop-drop, begins-index_of, index_of-begins, index_of-drop,
}

-- The value holds the marker.
HasMarker : Canary → Type 0
HasMarker c = (a : Text) × (b : Text) × (c.value ≡ a ++ (marker ++ b))

around-HasMarker : (label before behind : String) → HasMarker (around label before behind)
unfolding HasMarker
around-HasMarker label before behind = (codes before, codes behind, refl)

canaries-HasMarker : All HasMarker canaries
unfolding canaries
canaries-HasMarker = (
  around-HasMarker "openai" "sk-" "-oai9Lt7Nw2QrZ0aB8mYjPpQe",
  (
    around-HasMarker "anthropic" "sk-ant-" "-ant3Ko0LqFqzv9Sb1J7mNcR",
    (
      around-HasMarker "google" "AIza" "Goog12345abcdef9876",
      (
        around-HasMarker "jwt-bearer" "eyJhbGciOiJIUzI1NiJ9.eyJjYW5hcnkiOnRydWV9."
            "-jwt-signature-xyz",
        (around-HasMarker "byok-credential-ref" "cred_" "-OpaqueRefAlphaNumX9Y8Z7", tt),
      ),
    ),
  ),
)

-- Where the marker does not occur, no value around it does.
value_absent :
    (c : Canary) (t : Text) → HasMarker c → index_of marker t ≡ none → index_of c.value t ≡ none
unfolding HasMarker
value_absent c t (a, b, e) h = elim (Option-cases (index_of c.value t)) [
  | inl absent ↦ absent
  | inr (k, found) ↦
      let whole : begins (a ++ (marker ++ b)) (drop k t) ≡ true =
        subst (λ (v : Text). begins v (drop k t) ≡ true) e (begins-index_of c.value t k found) in
      let there =
        begins-front marker b (drop (length a) (drop k t))
          (begins-back a (marker ++ b) (drop k t) whole) in
      absurd (
        index_of-drop marker k t
          (index_of-drop marker (length a) (drop k t)
            (index_of-begins marker (drop (length a) (drop k t)) there))
          h)
]

exact_leaks_absent :
    (cs : List Canary) (t : Text)
    → All HasMarker cs
    → index_of marker t ≡ none
    → exact_leaks cs t ≡ []
unfolding exact_leaks
exact_leaks_absent [] t h absent = refl
exact_leaks_absent (c ∷ cs) t (h, hs) absent =
    rw (value_absent c t h absent) (exact_leaks_absent cs t hs absent)

report_some : (pos : ℕ) (leaks : List CanaryLeak) → report pos leaks ≢ []
report_some pos [] e = cc
report_some pos (l ∷ leaks) e = ground (arith, e)

marker_leaks_some :
    (fuel from : ℕ) (t : Text) (leaks : List CanaryLeak)
    → leaks ≢ []
    → marker_leaks fuel from t leaks ≢ []
unfolding marker_leaks
marker_leaks_some zero from t leaks h = h
marker_leaks_some (suc fuel) from t leaks h =
    maybe_cases (λ (r : List CanaryLeak). r ≢ []) (index_of marker t) _ _ (λ absent. h)
      (λ k found. marker_leaks_some fuel _ _ _ (report_some (from + k) leaks))

marker_found :
    (t : Text) (leaks : List CanaryLeak) (k : ℕ)
    → index_of marker t ≡ some k
    → marker_leaks (length t) 0 t leaks ≢ []
unfolding marker_leaks index_of
marker_found [] leaks k e = cc
marker_found (c ∷ t) leaks k e =
    rw e (marker_leaks_some (length t) _ _ _ (report_some (0 + k) leaks))

leaks_absent : (fuel : ℕ) (t : Text) → index_of marker t ≡ none → marker_leaks fuel 0 t [] ≡ []
unfolding marker_leaks
leaks_absent zero t h = refl
leaks_absent (suc fuel) t h = rw h refl

-- The detector reports nothing of a text exactly if the marker does not occur in it.
pub find_canary_leaks_iff : (t : Text) → (find_canary_leaks t ≡ []) ↔ (index_of marker t ≡ none)
unfolding find_canary_leaks
find_canary_leaks_iff t = (
  λ clean. elim (Option-cases (index_of marker t)) [
    | inl absent ↦ absent
    | inr (k, found) ↦ absurd (marker_found t (exact_leaks canaries t) k found clean)
  ],
  λ absent.
      ap (marker_leaks (length t) 0 t) (exact_leaks_absent canaries t canaries-HasMarker absent)
      ∙ leaks_absent (length t) t absent,
)

-- The value of a leak stands in the text at its position.
abbrev pub IsLeak : Text → CanaryLeak → Type 0
IsLeak t l = begins l.value (drop l.position t) ≡ true

exact_leaks-IsLeak : (cs : List Canary) (t : Text) → All (IsLeak t) (exact_leaks cs t)
unfolding exact_leaks
exact_leaks-IsLeak [] t = tt
exact_leaks-IsLeak (c ∷ cs) t =
    maybe_cases (All (IsLeak t)) (index_of c.value t) _ _ (λ absent. exact_leaks-IsLeak cs t)
      (λ k found. (begins-index_of c.value t k found, exact_leaks-IsLeak cs t))

report-IsLeak :
    (t : Text) (pos : ℕ) (leaks : List CanaryLeak)
    → begins marker (drop pos t) ≡ true
    → All (IsLeak t) leaks
    → All (IsLeak t) (report pos leaks)
report-IsLeak t pos leaks h hs =
    if_cases (All (IsLeak t)) (any (covers pos) leaks) _ _ (λ covered. hs)
      (λ bare. All-append (IsLeak t) leaks _ hs (h, tt))

marker_leaks-IsLeak :
    (fuel from : ℕ) (t rest : Text) (leaks : List CanaryLeak)
    → rest ≡ drop from t
    → All (IsLeak t) leaks
    → All (IsLeak t) (marker_leaks fuel from rest leaks)
unfolding marker_leaks
marker_leaks-IsLeak zero from t rest leaks e hs = hs
marker_leaks-IsLeak (suc fuel) from t rest leaks e hs =
    maybe_cases (All (IsLeak t)) (index_of marker rest) _ _ (λ absent. hs)
      (λ k found.
        let there : begins marker (drop (from + k) t) ≡ true =
          subst (λ (r : Text). begins marker r ≡ true) (ap (drop k) e ∙ drop-drop k from t)
            (begins-index_of marker rest k found) in
        let further : drop (k + length marker) rest ≡ drop (from + k + length marker) t =
          ap (drop (k + length marker)) e
          ∙ drop-drop (k + length marker) from t
          ∙ ap (λ (n : ℕ). drop n t) (sum from k (length marker)) in
        marker_leaks-IsLeak fuel _ t _ _ further (report-IsLeak t (from + k) leaks there hs))
  where
    sum : (a b c : ℕ) → a + (b + c) ≡ a + b + c
    sum a b c = omega arith

-- Every leak that the detector reports is one: its value stands in the text at its position.
pub find_canary_leaks-IsLeak : (t : Text) → All (IsLeak t) (find_canary_leaks t)
unfolding find_canary_leaks
find_canary_leaks-IsLeak t =
    marker_leaks-IsLeak (length t) 0 t t _ refl (exact_leaks-IsLeak canaries t)
