-- ===== src/Suite/Args.antt =====
-- `parseArgs` of conformance/src/cli.ts.
use Prim.Native.Char.{code}
use wop.Prelude.{
  String, Bool, true, false, ◌||◌, Option, none, some, List, [], ◌∷◌, eqb, ◌==◌, strip,
  if◌then◌else◌, maybe,
}

pub record ParsedArgs : Type 0 where
  pub base_url : Option String
  pub api_key : Option String
  pub offline : Bool
  pub filter : Option String
  pub help : Bool
  pub impl : Option String
  pub impl_version : Option String

abbrev pub no_args : ParsedArgs
no_args = record {
  base_url = none;
  api_key = none;
  offline = false;
  filter = none;
  help = false;
  impl = none;
  impl_version = none;
}

-- The flags that take a value.
pub data Flag : Type 0 where
  base_url api_key filter impl impl_version : Flag

-- The cases of the `switch`; `none` for its default.
unfoldable pub flag_of : String → Option Flag
flag_of s =
    if s == "--base-url"
    then some base_url
    else if s == "--api-key"
    then some api_key
    else if s == "--filter"
    then some filter
    else if s == "--impl" || s == "--implementation-name"
    then some impl
    else if s == "--impl-version" || s == "--implementation-version"
    then some impl_version
    else none

-- `arg.indexOf('=')` with the two slices: what stands before the sign, and behind it, if there is one
unfoldable pub split_flag : String → String × Option String
split_flag String.[] = ("", none)
split_flag (String.◌∷◌ c s) =
    let later = split_flag s in
    if eqb (code c) b'=' then ("", some s) else (String.◌∷◌ c later.0, later.1)

-- `s.startsWith('-')`
abbrev pub starts_dash : String → Bool
starts_dash s = maybe (strip "-" s) false (λ rest. true)

-- `nextValue()`, with whether it moves on to the next argument
unfoldable pub next_value : Option String → Option String → Option String × Bool
next_value (some v) next = (some v, false)
next_value none none = (none, false)
next_value none (some next) = if starts_dash next then (none, false) else (some next, true)

abbrev pub set_flag : Flag → Option String → ParsedArgs → ParsedArgs
set_flag base_url v a = record a { base_url = v }
set_flag api_key v a = record a { api_key = v }
set_flag filter v a = record a { filter = v }
set_flag impl v a = record a { impl = v }
set_flag impl_version v a = record a { impl_version = v }

-- The body of the loop for one argument, given the next one: the new values, and whether the next
-- argument was taken.
unfoldable pub consume : String → Option String → ParsedArgs → ParsedArgs × Bool
unfolding flag_of split_flag next_value
consume arg next a =
    if arg == "-h" || arg == "--help"
    then (record a { help = true }, false)
    else if arg == "--offline"
    then (record a { offline = true }, false)
    else let (flag, inline_value) = split_flag arg in
      maybe (flag_of flag) ((a, false))
        (λ f. let (v, moved) = next_value inline_value next in (set_flag f v a, moved))

-- The step to the next argument, or past it.
abbrev pub proceed :
    ParsedArgs × Bool → (ParsedArgs → ParsedArgs) → (ParsedArgs → ParsedArgs) → ParsedArgs
proceed (a, true) past here = past a
proceed (a, false) past here = here a

-- The loop.
unfoldable pub parse_from : List String → ParsedArgs → ParsedArgs
unfolding consume
parse_from [] a = a
parse_from (arg ∷ []) a = (consume arg none a).0
parse_from (arg ∷ next ∷ rest) a =
    proceed (consume arg (some next) a) (parse_from rest) (parse_from (next ∷ rest))

abbrev pub parse_args : List String → ParsedArgs
parse_args argv = parse_from argv no_args
