-- ===== src/Canaries.antt =====
-- The leak detector of the conformance suite: conformance/src/lib/canaries.ts. A text is the list of
-- its characters, by their numbers.
pub mod Occurrences
pub mod Detection
pub mod Fuel
use wop.Prelude.{
  ℕ, zero, suc, ◌+◌, String, Bool, true, false, not, ◌&&◌, Option, none, some, List, [], ◌∷◌, ◌++◌,
  length, any, eqb, leb, ltb, if◌then◌else◌, maybe,
}
use wop.Sse.Parser.{Text, codes}

-- Whether the text begins with this one.
abbrev pub begins : Text → Text → Bool
begins [] t = true
begins (c ∷ m) [] = false
begins (c ∷ m) (d ∷ t) = eqb c d && begins m t

-- `text.indexOf(value)`
unfoldable pub index_of : Text → Text → Option ℕ
index_of m [] = if begins m [] then some 0 else none
index_of m (d ∷ t) =
    let later = index_of m t in
    if begins m (d ∷ t) then some 0 else maybe later none (λ k. some (suc k))

-- `text.slice(n)`
abbrev pub drop : ℕ → Text → Text
drop zero t = t
drop (suc n) [] = []
drop (suc n) (c ∷ t) = drop n t

pub record Canary : Type 0 where
  pub label : String
  pub value : Text

pub record CanaryLeak : Type 0 where
  pub label : String
  pub value : Text
  pub position : ℕ

-- `CANARY_MARKER`
abbrev pub marker : Text
marker = codes "CANARY-WOP-CONFORMANCE-NEVER-SECRET"

-- A value that stands around the marker; `buildCanary` begins what follows it with a dash.
abbrev pub around : String → String → String → Canary
around label before behind = record {
  label = label;
  value = codes before ++ (marker ++ codes behind);
}

-- `CANARIES`
unfoldable pub canaries : List Canary
canaries =
    around "openai" "sk-" "-oai9Lt7Nw2QrZ0aB8mYjPpQe"
    ∷ around "anthropic" "sk-ant-" "-ant3Ko0LqFqzv9Sb1J7mNcR"
    ∷ around "google" "AIza" "Goog12345abcdef9876"
    ∷ around "jwt-bearer" "eyJhbGciOiJIUzI1NiJ9.eyJjYW5hcnkiOnRydWV9." "-jwt-signature-xyz"
    ∷ around "byok-credential-ref" "cred_" "-OpaqueRefAlphaNumX9Y8Z7"
    ∷ []

-- The first pass: exact values.
unfoldable pub exact_leaks : List Canary → Text → List CanaryLeak
unfolding index_of
exact_leaks [] text = []
exact_leaks (c ∷ cs) text =
    let later = exact_leaks cs text in
    maybe (index_of c.value text) later
      (λ pos. record { label = c.label; value = c.value; position = pos } ∷ later)

-- `l.position <= pos && pos < l.position + l.value.length`
abbrev pub covers : ℕ → CanaryLeak → Bool
covers pos l = leb l.position pos && ltb pos (l.position + length l.value)

-- What the second pass does with a marker at this position.
abbrev pub report : ℕ → List CanaryLeak → List CanaryLeak
report pos leaks =
    if any (covers pos) leaks
    then leaks
    else leaks ++ record { label = "marker-only"; value = marker; position = pos } ∷ []

-- The second pass, over what `scanFrom` leaves of the text.
unfoldable pub marker_leaks : ℕ → ℕ → Text → List CanaryLeak → List CanaryLeak
unfolding index_of
marker_leaks zero scan_from text leaks = leaks
marker_leaks (suc fuel) scan_from text leaks = maybe (index_of marker text) leaks (λ k.
    marker_leaks fuel (scan_from + k + length marker) (drop (k + length marker) text)
      (report (scan_from + k) leaks))

unfoldable pub find_canary_leaks : Text → List CanaryLeak
unfolding exact_leaks marker_leaks canaries
find_canary_leaks text = marker_leaks (length text) 0 text (exact_leaks canaries text)
