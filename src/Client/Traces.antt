-- ===== src/Client/Traces.antt =====
-- Which texts `extractTraceId` of sdk/typescript/src/types.ts finds a trace id in.
use Prim.Native.Char.{Char, code}
use Prim.Native.String
use Prim.Native.String.{String, ◌∷◌}
use text.Mathlib.TextEquality.{Char-path}
use text.Mathlib.TextLemmas.{nil-append, cons-append}
use wop.Prelude.{
  ℕ, ◌≡◌, ◌≢◌, ◌↔◌, refl, ap, ◌∙◌, true, false, some, List, length, All, all, arith, Bool-cases,
  inl, inr, eqb, ◌==◌, eq_iff, if_cases,
}
use wop.Sse.Parser.{Text, codes}
use wop.Client.Trace.{longer, split_dashes, is_hex, is_trace_id, trace_part, extract_trace_id}

abbrev pub HasNoDash : String → Type 0
HasNoDash String.[] = Unit
HasNoDash (c ∷ s) = (code c ≢ b'-') × HasNoDash s

abbrev pub dash : String → String
dash s = String.◌++◌ "-" s

-- A hexadecimal digit.
abbrev pub IsHex : ℕ → Type 0
IsHex n = is_hex n ≡ true

-- 32 hexadecimal digits.
abbrev pub IsTraceId : String → Type 0
IsTraceId t = (length (codes t) ≡ 32) × All IsHex (codes t)

-- The text is this version, this id and something more, with dashes between them.
pub record Parent (text trace_id : String) : Type 0 where
  pub version : String
  pub rest : String
  pub first : HasNoDash version
  pub id : IsTraceId trace_id
  pub parts : text ≡ String.◌++◌ version (dash (String.◌++◌ trace_id (dash rest)))

split_dashes-append :
    (v s : String)
    → HasNoDash v
    → split_dashes (String.◌++◌ v (dash s)) ≡ List.◌∷◌ v (split_dashes s)
unfolding split_dashes
split_dashes-append String.[] s h = rw (nil-append, cons-append, nil-append) refl
split_dashes-append (c ∷ v) s (h, hs) = rw cons-append (ground (arith, split_dashes-append v s hs))

-- A first part that the split cut off.
record Cut (text part : String) (parts : List String) : Type 0 where
  later : String
  behind : split_dashes later ≡ parts
  clean : HasNoDash part
  whole : text ≡ String.◌++◌ part (dash later)

Cut-more :
    (c : Char) (s v part w : String) (r : List String)
    → code c ≢ b'-'
    → v ≡ c ∷ part
    → Cut s part (List.◌∷◌ w r)
    → Cut (c ∷ s) v (List.◌∷◌ w r)
Cut-more c s v part w r h e k = record {
  later = k.later;
  behind = k.behind;
  clean = rw e (h, k.clean);
  whole = rw (e, cons-append) (ap (λ x. c ∷ x) k.whole);
}

Cut-here :
    (c : Char) (s v w : String) (r : List String)
    → code c ≡ b'-'
    → List.◌∷◌ "" (split_dashes s) ≡ List.◌∷◌ v (List.◌∷◌ w r)
    → Cut (c ∷ s) v (List.◌∷◌ w r)
Cut-here c s v w r same e =
    let none_before : v ≡ "" = cc in
    record {
      later = s;
      behind = cc;
      clean = rw none_before tt;
      whole =
          rw (none_before, nil-append, cons-append, nil-append)
            (ap (λ x. x ∷ s) (Char-path c "-" same));
    }

Cut-longer :
    (c : Char) (s v w : String) (r : List String)
    → code c ≢ b'-'
    → ((part : String) → split_dashes s ≡ List.◌∷◌ part (List.◌∷◌ w r) → Cut s part (List.◌∷◌ w r))
    → (ps : List String) → split_dashes s ≡ ps
    → longer c ps ≡ List.◌∷◌ v (List.◌∷◌ w r)
    → Cut (c ∷ s) v (List.◌∷◌ w r)
Cut-longer c s v w r h ih List.[] q l = cc
Cut-longer c s v w r h ih (List.◌∷◌ part List.[]) q l = cc
Cut-longer c s v w r h ih (List.◌∷◌ part (List.◌∷◌ w' r')) q l =
    let others : split_dashes s ≡ List.◌∷◌ part (List.◌∷◌ w r) = cc in
    let first : v ≡ c ∷ part = cc in Cut-more c s v part w r h first (ih part others)

split_sound :
    (s v w : String) (r : List String)
    → split_dashes s ≡ List.◌∷◌ v (List.◌∷◌ w r)
    → Cut s v (List.◌∷◌ w r)
unfolding split_dashes
split_sound String.[] v w r e = absurd (ground (arith, e))
split_sound (c ∷ s) v w r e = elim (Bool-cases (eqb (code c) b'-')) [
  | inl at_dash ↦ Cut-here c s v w r (ground (arith, at_dash)) (rw at_dash at e)
  | inr other ↦
      Cut-longer c s v w r (ground (arith, other)) (λ part. split_sound s part w r) (split_dashes s)
        refl (rw other at e)
]

-- A hexadecimal digit is no dash.
HasNoDash-hex : (t : String) → All IsHex (codes t) → HasNoDash t
HasNoDash-hex String.[] h = tt
HasNoDash-hex (c ∷ s) (h, hs) = (λ e. ground (arith, h), HasNoDash-hex s hs)

all_iff : (t : Text) → (all is_hex t ≡ true) ↔ All IsHex t
all_iff List.[] = (λ e. tt, λ h. refl)
all_iff (List.◌∷◌ n t) = (
  λ e. (ground (arith, e), (all_iff t).0 (ground (arith, e))),
  λ h. rw (h.0, (all_iff t).1 h.1) refl,
)

is_trace_id_iff : (t : String) → (is_trace_id t ≡ true) ↔ IsTraceId t
unfolding is_trace_id
is_trace_id_iff t = (
  λ e. (ground (arith, e), (all_iff (codes t)).0 (ground (arith, e))),
  λ h. rw (h.0, (all_iff (codes t)).1 h.1) refl,
)

-- What `extractTraceId` saw where it gave an id.
record Found (t id : String) : Type 0 where
  version : String
  next : String
  later : List String
  cut : split_dashes t ≡ List.◌∷◌ version (List.◌∷◌ id (List.◌∷◌ next later))
  hex : is_trace_id id ≡ true

found :
    (t id : String) (ps : List String) → split_dashes t ≡ ps → trace_part ps ≡ some id → Found t id
found t id List.[] q e = cc
found t id (List.◌∷◌ v List.[]) q e = cc
found t id (List.◌∷◌ v (List.◌∷◌ x List.[])) q e = cc
found t id (List.◌∷◌ v (List.◌∷◌ x (List.◌∷◌ w r))) q e =
    let same : x ≡ id = ground (arith, e) in
    let hex : is_trace_id x ≡ true = ground (arith, e) in
    record { version = v; next = w; later = r; cut = rw same at q; hex = rw same at hex }

parent : (t id : String) → Found t id → Parent t id
parent t id f =
    let a = split_sound t f.version id (List.◌∷◌ f.next f.later) f.cut in
    let b = split_sound a.later id f.next f.later a.behind in
    record {
      version = f.version;
      rest = b.later;
      first = a.clean;
      id = (is_trace_id_iff id).0 f.hex;
      parts = a.whole ∙ ap (λ x. String.◌++◌ f.version (dash x)) b.whole;
    }

-- The rest of a text has at least one part.
record Nonempty (parts : List String) : Type 0 where
  head : String
  tail : List String
  cons : parts ≡ List.◌∷◌ head tail

longer-Nonempty : (c : Char) (ps : List String) → Nonempty (longer c ps)
longer-Nonempty c List.[] = record { head = c ∷ String.[]; tail = List.[]; cons = refl }
longer-Nonempty c (List.◌∷◌ part parts) = record { head = c ∷ part; tail = parts; cons = refl }

split_dashes-Nonempty : (s : String) → Nonempty (split_dashes s)
unfolding split_dashes
split_dashes-Nonempty String.[] = record { head = ""; tail = List.[]; cons = refl }
split_dashes-Nonempty (c ∷ s) =
    if_cases Nonempty (eqb (code c) b'-') _ _
      (λ at_dash. record { head = ""; tail = split_dashes s; cons = refl })
      (λ other. longer-Nonempty c (split_dashes s))

not_blank : (t : String) → IsTraceId t → (t == "") ≡ false
not_blank t h = elim (Bool-cases (t == "")) [
  | inl blank ↦ absurd (omega (arith, h.0, ap (λ x. length (codes x)) ((eq_iff t "").0 blank)))
  | inr other ↦ other
]

complete : (t id : String) → Parent t id → extract_trace_id t ≡ some id
unfolding extract_trace_id
complete t id k =
    let more = split_dashes-Nonempty k.rest in
    rw
      (
        k.parts,
        split_dashes-append k.version (String.◌++◌ id (dash k.rest)) k.first,
        split_dashes-append id k.rest (HasNoDash-hex id k.id.1),
        more.cons,
        (is_trace_id_iff id).1 k.id,
        not_blank id k.id,
      )
      refl

-- `extractTraceId` gives this id exactly where the text is a version without a dash, the id and
-- something more, with dashes between them, and the id is 32 hexadecimal digits.
pub extract_trace_id_iff : (t id : String) → (extract_trace_id t ≡ some id) ↔ Parent t id
unfolding extract_trace_id
extract_trace_id_iff t id = (λ e. parent t id (found t id (split_dashes t) refl e), complete t id)
