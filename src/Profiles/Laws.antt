-- ===== src/Profiles/Laws.antt =====
-- What the profiles of a payload have to do with each other (conformance/src/lib/profiles.ts).
use wop.Prelude.{
  ◌≡◌, refl, Bool, true, List, [], append-nil, ◌∷◌, ◌++◌, filter, filter-append, arith,
}
use wop.Json.{Fields}
use wop.Profiles.{
  ProfileName, core, interrupts, stream_sse, stream_poll, secrets, provider_policy, node_packs,
  replay_fork, profile_names, is_core, is_interrupts, is_stream_sse, is_stream_poll, is_secrets,
  is_provider_policy, is_node_packs_discovery, is_replay_fork, derive_profiles, has_profile, push,
}

-- One step of `deriveProfiles` is one step of a filter.
push-filter :
    (p : ProfileName → Bool) (names result : List ProfileName) (n : ProfileName)
    → result ≡ filter p names
    → push (p n) n result ≡ filter p (names ++ n ∷ [])
push-filter p names result n h =
    ground (arith, h, filter-append p names (n ∷ []), append-nil (filter p names))

-- `deriveProfiles` lists the profiles that `hasProfile` grants, in the order of `PROFILE_NAMES` and
-- each once.
pub derive_profiles-has_profile :
    (c : Fields) → derive_profiles c ≡ filter (has_profile c) profile_names
unfolding derive_profiles has_profile
derive_profiles-has_profile c =
    let p = has_profile c in
    let step = push-filter p in
    step
      (core ∷ interrupts ∷ stream_sse ∷ stream_poll ∷ secrets ∷ provider_policy ∷ node_packs ∷ []) _
      replay_fork
      (step (core ∷ interrupts ∷ stream_sse ∷ stream_poll ∷ secrets ∷ provider_policy ∷ []) _
        node_packs
        (step (core ∷ interrupts ∷ stream_sse ∷ stream_poll ∷ secrets ∷ []) _ provider_policy (
          step (core ∷ interrupts ∷ stream_sse ∷ stream_poll ∷ []) _ secrets (
            step (core ∷ interrupts ∷ stream_sse ∷ []) _ stream_poll (
              step (core ∷ interrupts ∷ []) _ stream_sse
                (step (core ∷ []) _ interrupts (step [] [] core refl)))))))

-- Every profile implies `wop-core`: a payload without it has no profile.
pub has_profile-core : (c : Fields) (n : ProfileName) → has_profile c n ≡ true → is_core c ≡ true
unfolding has_profile is_interrupts is_stream_sse is_stream_poll is_secrets is_provider_policy
    is_node_packs_discovery is_replay_fork
has_profile-core c n h = ground (arith, h, n)
