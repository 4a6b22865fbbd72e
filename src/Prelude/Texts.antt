-- ===== src/Prelude/Texts.antt =====
-- Prefixes of texts, and the part of a path up to its next slash.
use Prim.Native.Char.{Char, code}
use Prim.Native.String
use Prim.Native.String.{String, [], ◌∷◌}
use mathlib.Core.Path.{◌≡◌, refl, sym, ap₂}
use mathlib.Core.Bool.{Bool, ◌||◌}
use text.Mathlib.Text.{◌==◌}
use mathlib.Core.Option.{Option, none, some, some-injective}
use mathlib.Core.Logic.{◌≢◌}
use native.Mathlib.Omega.{arith}
use text.Mathlib.TextEquality.{Char-path}
use text.Mathlib.TextLemmas.{nil-append, cons-append}
use wop.Prelude.Tests.{eqb, if◌then◌else◌}

-- What follows the prefix: `s.startsWith(prefix)` with `s.slice(prefix.length)`.
unfoldable pub strip : String → String → Option String
strip [] s = some s
strip (c ∷ r) [] = none
strip (c ∷ r) (d ∷ s) = let rest = strip r s in if eqb (code c) (code d) then rest else none

pub strip-append : (r s : String) → strip r (String.◌++◌ r s) ≡ some s
unfolding strip
strip-append [] s = rw nil-append
strip-append (c ∷ r) s = rw cons-append (ground (arith, strip-append r s))

pub strip_sound : (r s t : String) → strip r s ≡ some t → s ≡ String.◌++◌ r t
unfolding strip
strip_sound [] s t e = rw nil-append (some-injective s t e)
strip_sound (c ∷ r) [] t e = cc
strip_sound (c ∷ r) (d ∷ s) t e =
    let same : code c ≡ code d = ground arith in
    let rest : strip r s ≡ some t = ground arith in
    rw cons-append
      (ap₂ (λ (x : Char) (y : String). x ∷ y) (sym (Char-path c d same)) (strip_sound r s t rest))

-- `s.endsWith(suffix)`
abbrev pub ends_with : String → String → Bool
ends_with suffix [] = suffix == ""
ends_with suffix (c ∷ s) = (suffix == (c ∷ s)) || ends_with suffix s

-- The longest beginning without a slash, `[^/]*`, and what follows it.
unfoldable pub span_segment : String → String × String
span_segment [] = ([], [])
span_segment (c ∷ s) =
    let (segment, rest) = span_segment s in
    if eqb (code c) b'/' then ([], c ∷ s) else (c ∷ segment, rest)

abbrev pub HasNoSlash : String → Type 0
HasNoSlash [] = Unit
HasNoSlash (c ∷ s) = (code c ≢ b'/') × HasNoSlash s

-- A text that is empty or begins with a slash.
abbrev pub EndsSegment : String → Type 0
EndsSegment [] = Unit
EndsSegment (c ∷ s) = code c ≡ b'/'

pub span_segment-append :
    (s rest : String)
    → HasNoSlash s
    → EndsSegment rest
    → span_segment (String.◌++◌ s rest) ≡ (s, rest)
unfolding span_segment
span_segment-append [] [] h e = refl
span_segment-append [] (c ∷ r) h e = rw nil-append (ground arith)
span_segment-append (c ∷ s) rest (h, hs) e =
    rw cons-append (ground (arith, span_segment-append s rest hs e))
