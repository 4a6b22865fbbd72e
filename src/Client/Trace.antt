-- ===== src/Client/Trace.antt =====
-- `extractTraceId` of sdk/typescript/src/types.ts.
use Prim.Native.Char.{code}
use Prim.Native.String.{String, ◌∷◌}
use wop.Prelude.{
  ℕ, Bool, not, ◌&&◌, ◌||◌, Option, none, some, List, length, all, eqb, leb, ◌==◌, if◌then◌else◌,
}
use wop.Sse.Parser.{codes}

-- The first part gets one more character in front.
abbrev pub longer : Prim.Native.Char.Char → List String → List String
longer c List.[] = List.◌∷◌ (c ∷ String.[]) List.[]
longer c (List.◌∷◌ part parts) = List.◌∷◌ (c ∷ part) parts

-- `text.split('-')`
unfoldable pub split_dashes : String → List String
split_dashes String.[] = List.◌∷◌ "" List.[]
split_dashes (c ∷ s) =
    let parts = split_dashes s in if eqb (code c) b'-' then List.◌∷◌ "" parts else longer c parts

-- `[0-9a-f]` where case is ignored
abbrev pub is_hex : ℕ → Bool
is_hex n = leb b'0' n && leb n b'9' || (leb b'a' n && leb n b'f' || leb b'A' n && leb n b'F')

-- `/^[0-9a-f]{32}$/i.test(text)`
unfoldable pub is_trace_id : String → Bool
is_trace_id t = eqb (length (codes t)) 32 && all is_hex (codes t)

-- `extractTraceId`, from the parts on
abbrev pub trace_part : List String → Option String
trace_part (List.◌∷◌ version (List.◌∷◌ trace_id (List.◌∷◌ part parts))) =
    if not (trace_id == "") && is_trace_id trace_id then some trace_id else none
trace_part _ = none

unfoldable pub extract_trace_id : String → Option String
unfolding split_dashes is_trace_id
extract_trace_id traceparent = trace_part (split_dashes traceparent)
