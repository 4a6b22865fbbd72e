-- ===== src/Suite/Env.antt =====
-- `loadEnv` of conformance/src/lib/env.ts, with the module's variable `cached`.
use wop.Prelude.{String, Option, none, some, ◌==◌, lookup, if◌then◌else◌, maybe}
use wop.Platform.{Platform}
use wop.Client.{strip_last_slash}
use wop.Suite.Main.{Variables}

pub record ConformanceEnv : Type 0 where
  pub base_url : String
  pub api_key : String
  pub implementation_name : String
  pub implementation_version : String

pub data Loaded : Type 0 where
  loaded : ConformanceEnv → Loaded
  missing : (message : String) → Loaded

abbrev pub base_url_missing : Loaded
base_url_missing =
    missing "WOP_BASE_URL env var is required. Example: WOP_BASE_URL=https://api.example.com"

abbrev pub api_key_missing : Loaded
api_key_missing =
    missing "WOP_API_KEY env var is required. See docs/wop-spec/v1/auth.md for credential format."

module _ (p : Platform) where
  -- `process.env[name]?.trim() ?? fallback`; of an absent required variable the empty text, which is
  -- refused as `undefined` is
  abbrev pub trimmed : String → String → Variables → String
  trimmed name fallback env = maybe (lookup name env) fallback p.trim

  -- `loadEnv` where nothing is cached
  unfoldable pub read_env : Variables → Loaded
  unfolding strip_last_slash
  read_env env =
      let base_url = trimmed "WOP_BASE_URL" "" env in
      let api_key = trimmed "WOP_API_KEY" "" env in
      if base_url == ""
      then base_url_missing
      else if api_key == ""
      then api_key_missing
      else loaded (record {
        base_url = strip_last_slash base_url;
        api_key = api_key;
        implementation_name = trimmed "WOP_IMPLEMENTATION_NAME" "unknown" env;
        implementation_version = trimmed "WOP_IMPLEMENTATION_VERSION" "unknown" env;
      })

  abbrev remembered : Loaded → Option ConformanceEnv
  remembered (loaded e) = some e
  remembered (missing message) = none

  -- `loadEnv`: what it gives and what is cached after it
  unfoldable pub load_env : Variables → Option ConformanceEnv → Loaded × Option ConformanceEnv
  unfolding read_env
  load_env env (some e) = (loaded e, some e)
  load_env env none = let r = read_env env in (r, remembered r)
