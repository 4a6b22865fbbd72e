-- ===== src/Tests/Profiles.antt =====
-- The profiles of the in-memory host's discovery payload, and the theorems on profiles applied to it.
use wop.Prelude.{◌≡◌, refl, [], ◌∷◌, filter, strip}
use wop.Json.{Json, obj, Fields, end}
use wop.Memory.Router.{discovery_payload}
use wop.Profiles.{
  core, stream_sse, stream_poll, node_packs, profile_names, is_core, is_interrupts, is_stream_sse,
  is_stream_poll, is_secrets, is_provider_policy, is_node_packs_discovery, is_replay_fork,
  derive_profiles, has_profile,
}
use wop.Profiles.Laws.{derive_profiles-has_profile}

abbrev fields_of : Json → Fields
fields_of (obj fs) = fs
fields_of _ = end

abbrev host_payload : Fields
host_payload = fields_of discovery_payload

-- The host's comment claims the first three of these.
host_profiles : derive_profiles host_payload ≡ core ∷ stream_sse ∷ stream_poll ∷ node_packs ∷ []
unfolding discovery_payload derive_profiles is_core is_interrupts is_stream_sse is_stream_poll
    is_secrets is_provider_policy is_node_packs_discovery is_replay_fork strip
host_profiles = refl

derive_profiles-has_profile_example :
    derive_profiles host_payload ≡ filter (has_profile host_payload) profile_names
derive_profiles-has_profile_example = derive_profiles-has_profile host_payload
