-- ===== src/Profiles.antt =====
-- Profile membership as a function of the discovery payload: conformance/src/lib/profiles.ts.
pub mod Laws
use wop.Prelude.{
  ℕ, suc, ◌%◌, String, Bool, true, false, not, ◌&&◌, Option, none, some, List, [], ◌∷◌, ◌++◌, ◌==◌,
  all, any, eqb, strip, if◌then◌else◌, maybe,
}
use wop.Json.{
  Json, null, num, str, arr, obj, bool, Items, nil, cons, Fields, finite, items, find_field,
}

pub data ProfileName : Type 0 where
  core interrupts stream_sse stream_poll secrets provider_policy node_packs replay_fork :
      ProfileName

-- `PROFILE_NAMES`
abbrev pub profile_names : List ProfileName
profile_names =
    core ∷ interrupts ∷ stream_sse ∷ stream_poll ∷ secrets ∷ provider_policy ∷ node_packs
    ∷ replay_fork ∷ []

-- `typeof v === 'string'`
abbrev is_string : Json → Bool
is_string (str s) = true
is_string _ = false

-- `typeof v === 'object' && v !== null`
abbrev is_object : Option Json → Bool
is_object (some (obj fs)) = true
is_object (some (arr vs)) = true
is_object _ = false

-- `v == null`
abbrev is_nullish : Option Json → Bool
is_nullish none = true
is_nullish (some null) = true
is_nullish _ = false

-- `v === true`
abbrev is_true : Option Json → Bool
is_true (some (bool b)) = b
is_true _ = false

-- A property of an object; no array has one of the names that are read here.
abbrev get : String → Option Json → Option Json
get key (some (obj fs)) = find_field key fs
get key _ = none

abbrev is_string_array : Option Json → Bool
is_string_array (some (arr vs)) = all is_string (items vs)
is_string_array _ = false

-- `typeof value === 'number' && Number.isInteger(value) && value >= 0`; `-0 >= 0` holds
abbrev is_non_negative_integer : Option Json → Bool
is_non_negative_integer (some (num (finite false n d))) = eqb (n % suc d) 0
is_non_negative_integer (some (num (finite true n d))) = eqb n 0
is_non_negative_integer _ = false

abbrev is_text : String → Json → Bool
is_text t (str s) = s == t
is_text t _ = false

-- `v.includes(t)` of an array
abbrev includes : String → Option Json → Bool
includes t (some (arr vs)) = any (is_text t) (items vs)
includes t _ = false

abbrev is_empty_array : Option Json → Bool
is_empty_array (some (arr nil)) = true
is_empty_array _ = false

-- `typeof v === 'string' && v.startsWith(prefix)`
abbrev starts_with : String → Option Json → Bool
starts_with prefix (some (str s)) = maybe (strip prefix s) false (λ rest. true)
starts_with prefix _ = false

unfoldable pub is_core : Fields → Bool
unfolding strip
is_core c =
    let limits = find_field "limits" c in
    starts_with "1." (find_field "protocolVersion" c)
    && is_string_array (find_field "supportedEnvelopes" c)
    && is_object (find_field "schemaVersions" c)
    && is_object limits
    && is_non_negative_integer (get "clarificationRounds" limits)
    && is_non_negative_integer (get "schemaRounds" limits)
    && is_non_negative_integer (get "envelopesPerTurn" limits)

unfoldable pub is_interrupts : Fields → Bool
is_interrupts c =
    let envelopes = find_field "supportedEnvelopes" c in
    is_core c && is_string_array envelopes && includes "clarification.request" envelopes

-- What `isStreamSse` and `isStreamPoll` both ask of the transports.
abbrev offers_rest : Option Json → Bool
offers_rest transports =
    if is_nullish transports then true else is_string_array transports && includes "rest" transports

unfoldable pub is_stream_sse : Fields → Bool
is_stream_sse c = is_core c && offers_rest (find_field "supportedTransports" c)

unfoldable pub is_stream_poll : Fields → Bool
is_stream_poll c = is_core c && offers_rest (find_field "supportedTransports" c)

unfoldable pub is_secrets : Fields → Bool
is_secrets c =
    let section = find_field "secrets" c in
    let scopes = get "scopes" section in
    is_core c
    && is_object section
    && is_true (get "supported" section)
    && is_string_array scopes
    && includes "user" scopes

unfoldable pub is_provider_policy : Fields → Bool
is_provider_policy c =
    let providers = find_field "aiProviders" c in
    let policies = get "policies" providers in
    let modes = get "modes" policies in
    is_core c
    && is_object providers
    && is_object policies
    && is_string_array modes
    && not (is_empty_array modes)
    && includes "optional" modes

unfoldable pub is_node_packs_discovery : Fields → Bool
is_node_packs_discovery c = is_core c

unfoldable pub is_replay_fork : Fields → Bool
is_replay_fork c =
    let section = find_field "replay" c in
    let modes = get "modes" section in
    is_core c
    && is_object section
    && is_true (get "supported" section)
    && is_string_array modes
    && not (is_empty_array modes)

-- `if (…) result.push(name)`
abbrev pub push : Bool → ProfileName → List ProfileName → List ProfileName
push holds name result = if holds then result ++ name ∷ [] else result

unfoldable pub derive_profiles : Fields → List ProfileName
derive_profiles c = push (is_replay_fork c) replay_fork (
    push (is_node_packs_discovery c) node_packs (
      push (is_provider_policy c) provider_policy (
        push (is_secrets c) secrets (
          push (is_stream_poll c) stream_poll (
            push (is_stream_sse c) stream_sse
              (push (is_interrupts c) interrupts (push (is_core c) core [])))))))

unfoldable pub has_profile : Fields → ProfileName → Bool
has_profile c core = is_core c
has_profile c interrupts = is_interrupts c
has_profile c stream_sse = is_stream_sse c
has_profile c stream_poll = is_stream_poll c
has_profile c secrets = is_secrets c
has_profile c provider_policy = is_provider_policy c
has_profile c node_packs = is_node_packs_discovery c
has_profile c replay_fork = is_replay_fork c
