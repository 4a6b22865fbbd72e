-- ===== src/Suite/Parsing.antt =====
-- What `parseArgs` of conformance/src/cli.ts makes of a command line.
use Prim.Native.Char.{code}
use Prim.Native.String
use text.Mathlib.TextLemmas.{nil-append, cons-append}
use wop.Prelude.{
  ℕ, String, ◌≡◌, ◌≢◌, refl, sym, ap, ◌∙◌, Bool, true, false, not, Option, none, some, List, [],
  ◌∷◌, all, eqb, ◌==◌, eq_iff, arith, Bool-cases, inl, inr,
}
use wop.Sse.Parser.{codes}
use wop.Suite.Args.{
  ParsedArgs, no_args, Flag, base_url, api_key, filter, impl, impl_version, flag_of, split_flag,
  starts_dash, next_value, set_flag, consume, proceed, parse_from, parse_args,
}

-- A text without the sign that ends a flag.
abbrev pub HasNoSign : String → Type 0
HasNoSign s = all (λ (n : ℕ). not (eqb n b'=')) (codes s) ≡ true

-- `flag=value`
abbrev pub inline : String → String → String
inline flag v = String.◌++◌ flag (String.◌++◌ "=" v)

split_flag-inline : (flag v : String) → HasNoSign flag → split_flag (inline flag v) ≡ (flag, some v)
unfolding split_flag
split_flag-inline String.[] v h = rw (nil-append, cons-append, nil-append) refl
split_flag-inline (String.◌∷◌ c s) v h =
    let rest : HasNoSign s = ground (arith, h) in
    let here : eqb (code c) b'=' ≡ false = ground (arith, h) in
    rw (cons-append, here, split_flag-inline s v rest) refl

split_flag-plain : (s : String) → HasNoSign s → split_flag s ≡ (s, none)
unfolding split_flag
split_flag-plain String.[] h = refl
split_flag-plain (String.◌∷◌ c s) h =
    let rest : HasNoSign s = ground (arith, h) in
    let here : eqb (code c) b'=' ≡ false = ground (arith, h) in
    rw (here, split_flag-plain s rest) refl

none_some {ℓ} : {A : Type ℓ} {x : A} → ◌≢◌ {A = Option A} none (some x)
none_some e = cc

-- A text with a value is none without one.
differs :
    (arg k flag v : String)
    → split_flag arg ≡ (flag, some v)
    → (split_flag k).1 ≡ none
    → (arg == k) ≡ false
differs arg k flag v e plain = elim (Bool-cases (arg == k)) [
  | inl same ↦
      let at : (split_flag arg).1 ≡ none = rw ((eq_iff arg k).0 same) plain in
      absurd (none_some (sym at ∙ ap (λ (x : String × Option String). x.1) e))
  | inr other ↦ other
]

-- A name of a flag that takes a value is not the name of one that takes none.
name_differs :
    (name k : String) (f : Flag) → flag_of name ≡ some f → flag_of k ≡ none → (name == k) ≡ false
name_differs name k f e off = elim (Bool-cases (name == k)) [
  | inl same ↦
      let at : flag_of name ≡ none = rw ((eq_iff name k).0 same) off in
      absurd (none_some (sym at ∙ e))
  | inr other ↦ other
]

consume-inline :
    (name v : String) (f : Flag) (next : Option String) (a : ParsedArgs)
    → HasNoSign name
    → flag_of name ≡ some f
    → consume (inline name v) next a ≡ (set_flag f (some v) a, false)
unfolding consume next_value split_flag
consume-inline name v f next a plain e =
    let cut = split_flag-inline name v plain in
    rw
      (
        differs (inline name v) "-h" name v cut refl,
        differs (inline name v) "--help" name v cut refl,
        differs (inline name v) "--offline" name v cut refl,
        cut,
        e,
      )
      refl

consume-apart :
    (name v : String) (f : Flag) (a : ParsedArgs)
    → HasNoSign name
    → flag_of name ≡ some f
    → starts_dash v ≡ false
    → consume name (some v) a ≡ (set_flag f (some v) a, true)
unfolding consume next_value flag_of
consume-apart name v f a plain e value =
    rw
      (
        name_differs name "-h" f e refl,
        name_differs name "--help" f e refl,
        name_differs name "--offline" f e refl,
        split_flag-plain name plain,
        e,
        value,
      )
      refl

-- An argument that takes no other one with it.
parse_from-alone :
    (arg : String) (rest : List String) (a a' : ParsedArgs)
    → ((next : Option String) → consume arg next a ≡ (a', false))
    → parse_from (arg ∷ rest) a ≡ parse_from rest a'
unfolding parse_from
parse_from-alone arg [] a a' e = ap (λ (r : ParsedArgs × Bool). r.0) (e none)
parse_from-alone arg (next ∷ rest) a a' e =
    ap (λ r. proceed r (parse_from rest) (parse_from (next ∷ rest))) (e (some next))

pub parse_from-inline :
    (name v : String) (f : Flag) (rest : List String) (a : ParsedArgs)
    → HasNoSign name
    → flag_of name ≡ some f
    → parse_from (inline name v ∷ rest) a ≡ parse_from rest (set_flag f (some v) a)
parse_from-inline name v f rest a plain e =
    parse_from-alone (inline name v) rest a _ (λ next. consume-inline name v f next a plain e)

-- A value behind its flag as an argument of its own means what `flag=value` means, for every name of
-- every flag that takes a value, wherever it stands, unless the value begins with a dash.
pub parse_from-apart :
    (name v : String) (f : Flag) (rest : List String) (a : ParsedArgs)
    → HasNoSign name
    → flag_of name ≡ some f
    → starts_dash v ≡ false
    → parse_from (name ∷ v ∷ rest) a ≡ parse_from (inline name v ∷ rest) a
unfolding parse_from
parse_from-apart name v f rest a plain e value =
    ap (λ r. proceed r (parse_from rest) (parse_from (v ∷ rest)))
      (consume-apart name v f a plain e value)
    ∙ sym (parse_from-inline name v f rest a plain e)

-- The first name of each flag.
abbrev pub name_of : Flag → String
name_of base_url = "--base-url"
name_of api_key = "--api-key"
name_of filter = "--filter"
name_of impl = "--impl"
name_of impl_version = "--impl-version"

HasNoSign-name : (f : Flag) → HasNoSign (name_of f)
HasNoSign-name base_url = refl
HasNoSign-name api_key = refl
HasNoSign-name filter = refl
HasNoSign-name impl = refl
HasNoSign-name impl_version = refl

flag-name : (f : Flag) → flag_of (name_of f) ≡ some f
unfolding flag_of
flag-name base_url = refl
flag-name api_key = refl
flag-name filter = refl
flag-name impl = refl
flag-name impl_version = refl

abbrev pub print_flag : Flag → Option String → List String → List String
print_flag f none rest = rest
print_flag f (some v) rest = inline (name_of f) v ∷ rest

abbrev pub print_switch : Bool → String → List String → List String
print_switch false name rest = rest
print_switch true name rest = name ∷ rest

-- A command line for these values.
abbrev pub print_args : ParsedArgs → List String
print_args a = print_flag base_url a.base_url (
    print_flag api_key a.api_key (
      print_flag filter a.filter (
        print_flag impl a.impl (
          print_flag impl_version a.impl_version
            (print_switch a.offline "--offline" (print_switch a.help "--help" []))))))

-- The value of a flag that has none yet.
abbrev value_of : Flag → ParsedArgs → Option String
value_of base_url a = a.base_url
value_of api_key a = a.api_key
value_of filter a = a.filter
value_of impl a = a.impl
value_of impl_version a = a.impl_version

set_flag-none : (f : Flag) (a : ParsedArgs) → value_of f a ≡ none → set_flag f none a ≡ a
set_flag-none base_url a e = ap (λ v. record a { base_url = v }) (sym e)
set_flag-none api_key a e = ap (λ v. record a { api_key = v }) (sym e)
set_flag-none filter a e = ap (λ v. record a { filter = v }) (sym e)
set_flag-none impl a e = ap (λ v. record a { impl = v }) (sym e)
set_flag-none impl_version a e = ap (λ v. record a { impl_version = v }) (sym e)

parse_from-print_flag :
    (f : Flag) (o : Option String) (rest : List String) (a : ParsedArgs)
    → value_of f a ≡ none
    → parse_from (print_flag f o rest) a ≡ parse_from rest (set_flag f o a)
parse_from-print_flag f none rest a e = ap (parse_from rest) (sym (set_flag-none f a e))
parse_from-print_flag f (some v) rest a e =
    parse_from-inline (name_of f) v f rest a (HasNoSign-name f) (flag-name f)

parse_from-offline :
    (b : Bool) (rest : List String) (a : ParsedArgs)
    → a.offline ≡ false
    → parse_from (print_switch b "--offline" rest) a ≡ parse_from rest (record a { offline = b })
unfolding consume
parse_from-offline false rest a e = ap (parse_from rest) (ap (λ b. record a { offline = b }) e)
parse_from-offline true rest a e = parse_from-alone "--offline" rest a _ (λ next. refl)

parse_from-help :
    (b : Bool) (a : ParsedArgs)
    → a.help ≡ false
    → parse_from (print_switch b "--help" []) a ≡ record a { help = b }
unfolding parse_from consume
parse_from-help false a e = ap (λ b. record a { help = b }) e
parse_from-help true a e = refl

-- Any values of the options, whatever texts they are, are read back from the command line that writes
-- each as `--flag=value`.
pub parse_args-print_args : (a : ParsedArgs) → parse_args (print_args a) ≡ a
parse_args-print_args a =
    parse_from-print_flag base_url a.base_url _ no_args refl
    ∙ parse_from-print_flag api_key a.api_key _ _ refl
    ∙ parse_from-print_flag filter a.filter _ _ refl
    ∙ parse_from-print_flag impl a.impl _ _ refl
    ∙ parse_from-print_flag impl_version a.impl_version _ _ refl
    ∙ parse_from-offline a.offline _ _ refl
    ∙ parse_from-help a.help _ refl
