-- ===== src/Suite/Options.antt =====
-- What `parseArgs` of conformance/src/cli.ts makes of a command line that gives options in any order,
-- each by any of its names and in either form.
use wop.Prelude.{
  arith, String, ◌≡◌, refl, ◌∙◌, ap, Bool, true, false, Option, some, List, [], ◌∷◌, All,
  if◌then◌else◌,
}
use wop.Suite.Args.{
  ParsedArgs, Flag, base_url, api_key, filter, impl, impl_version, flag_of, starts_dash, set_flag,
  parse_from,
}
use wop.Suite.Parsing.{HasNoSign, inline, parse_from-inline, parse_from-apart}

-- The names of the options that take a value.
pub data Name : Type 0 where
  base_url_name api_key_name filter_name impl_name impl_version_name : Name
  implementation_name_name implementation_version_name : Name

abbrev pub text_of : Name → String
text_of base_url_name = "--base-url"
text_of api_key_name = "--api-key"
text_of filter_name = "--filter"
text_of impl_name = "--impl"
text_of implementation_name_name = "--implementation-name"
text_of impl_version_name = "--impl-version"
text_of implementation_version_name = "--implementation-version"

abbrev pub meaning : Name → Flag
meaning base_url_name = base_url
meaning api_key_name = api_key
meaning filter_name = filter
meaning impl_name = impl
meaning implementation_name_name = impl
meaning impl_version_name = impl_version
meaning implementation_version_name = impl_version

HasNoSign-text_of : (n : Name) → HasNoSign (text_of n)
HasNoSign-text_of base_url_name = refl
HasNoSign-text_of api_key_name = refl
HasNoSign-text_of filter_name = refl
HasNoSign-text_of impl_name = refl
HasNoSign-text_of implementation_name_name = refl
HasNoSign-text_of impl_version_name = refl
HasNoSign-text_of implementation_version_name = refl

flag_of-text_of : (n : Name) → flag_of (text_of n) ≡ some (meaning n)
unfolding flag_of
flag_of-text_of base_url_name = refl
flag_of-text_of api_key_name = refl
flag_of-text_of filter_name = refl
flag_of-text_of impl_name = refl
flag_of-text_of implementation_name_name = refl
flag_of-text_of impl_version_name = refl
flag_of-text_of implementation_version_name = refl

-- An option with its value: as `name=value`, or as two arguments.
pub record Given : Type 0 where
  pub name : Name
  pub value : String
  pub is_apart : Bool

-- A value that is an argument of its own begins with no dash.
abbrev pub IsReadable : Given → Type 0
IsReadable g = g.is_apart ≡ true → starts_dash g.value ≡ false

abbrev pub command_line : List Given → List String
command_line [] = []
command_line (g ∷ gs) =
    if g.is_apart
    then text_of g.name ∷ g.value ∷ command_line gs
    else inline (text_of g.name) g.value ∷ command_line gs

-- The options one after another, so that a later one of the same meaning counts.
abbrev pub values_of : List Given → ParsedArgs → ParsedArgs
values_of [] a = a
values_of (g ∷ gs) a = values_of gs (set_flag (meaning g.name) (some g.value) a)

pub parse_from-command_line :
    (gs : List Given) (a : ParsedArgs)
    → All IsReadable gs
    → parse_from (command_line gs) a ≡ values_of gs a
unfolding parse_from
parse_from-command_line [] a h = refl
parse_from-command_line (g ∷ gs) a (readable, h) =
    one g.is_apart readable ∙ parse_from-command_line gs _ h
  where
    joined :
        parse_from (inline (text_of g.name) g.value ∷ command_line gs) a
        ≡ parse_from (command_line gs) (set_flag (meaning g.name) (some g.value) a)
    joined =
        parse_from-inline (text_of g.name) g.value (meaning g.name) (command_line gs) a
          (HasNoSign-text_of g.name) (flag_of-text_of g.name)

    one :
        (b : Bool)
        → (b ≡ true → starts_dash g.value ≡ false)
        → parse_from
            (if b
              then text_of g.name ∷ g.value ∷ command_line gs
              else inline (text_of g.name) g.value ∷ command_line gs)
            a
          ≡ parse_from (command_line gs) (set_flag (meaning g.name) (some g.value) a)
    one true r =
        parse_from-apart (text_of g.name) g.value (meaning g.name) (command_line gs) a
          (HasNoSign-text_of g.name) (flag_of-text_of g.name) (r refl)
        ∙ joined
    one false r = joined

-- The last value that a flag is given, or else another one.
abbrev pub is_same : Flag → Flag → Bool
is_same base_url base_url = true
is_same api_key api_key = true
is_same filter filter = true
is_same impl impl = true
is_same impl_version impl_version = true
is_same _ _ = false

abbrev pub last_value : Flag → List Given → Option String → Option String
last_value f [] o = o
last_value f (g ∷ gs) o = last_value f gs (if is_same f (meaning g.name) then some g.value else o)

base_url-set :
    (f : Flag) (v : String) (a : ParsedArgs)
    → (set_flag f (some v) a).base_url ≡ (if is_same base_url f then some v else a.base_url)
base_url-set f v a = ground arith

pub base_url-values_of :
    (gs : List Given) (a : ParsedArgs)
    → (values_of gs a).base_url ≡ last_value base_url gs a.base_url
base_url-values_of [] a = refl
base_url-values_of (g ∷ gs) a =
    base_url-values_of gs (set_flag (meaning g.name) (some g.value) a)
    ∙ ap (last_value base_url gs) (base_url-set (meaning g.name) g.value a)

api_key-set :
    (f : Flag) (v : String) (a : ParsedArgs)
    → (set_flag f (some v) a).api_key ≡ (if is_same api_key f then some v else a.api_key)
api_key-set f v a = ground arith

pub api_key-values_of :
    (gs : List Given) (a : ParsedArgs) → (values_of gs a).api_key ≡ last_value api_key gs a.api_key
api_key-values_of [] a = refl
api_key-values_of (g ∷ gs) a =
    api_key-values_of gs (set_flag (meaning g.name) (some g.value) a)
    ∙ ap (last_value api_key gs) (api_key-set (meaning g.name) g.value a)

-- An option with a value leaves the switches as they are.
pub switches-values_of :
    (gs : List Given) (a : ParsedArgs)
    → ((values_of gs a).help ≡ a.help) × ((values_of gs a).offline ≡ a.offline)
switches-values_of [] a = (refl, refl)
switches-values_of (g ∷ gs) a =
    let (help, offline) = switches-values_of gs (set_flag (meaning g.name) (some g.value) a) in
    (help ∙ ground arith, offline ∙ ground arith)
