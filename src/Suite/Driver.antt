-- ===== src/Suite/Driver.antt =====
-- `WopDriver` of conformance/src/lib/driver.ts.
use Prim.Native.String
use wop.Prelude.{ℕ, String, Bool, Option, none, some, [], ◌==◌, insert, if◌then◌else◌, maybe}
use wop.Json.{Json}
use wop.Platform.{Platform}
use wop.Client.{Headers, Outgoing, RawRequest, typed_headers}
use wop.Client.Outcome.{Incoming}
use wop.Suite.Env.{ConformanceEnv}

-- `WopResponse`, without its headers; `undefined` as `none`.
pub record WopResponse : Type 0 where
  pub status : ℕ
  pub text : String
  pub json : Option Json

-- The request that `request` sends; `authenticated` is `init.authenticated !== false`. The content
-- type is set as the SDK client sets it.
unfoldable pub driver_request : Platform → ConformanceEnv → RawRequest → Bool → Outgoing
driver_request p env init authenticated = record {
  url = String.◌++◌ env.base_url init.path;
  method = init.method;
  headers =
      let typed = typed_headers init in
      if authenticated
      then insert "Authorization" (String.◌++◌ "Bearer " env.api_key) typed
      else typed;
  body = maybe init.body none (λ b. some (p.json_stringify b));
}

-- `request` from the response on
unfoldable pub driver_response : Platform → Incoming → WopResponse
driver_response p res = record {
  status = res.status;
  text = res.text;
  json = if res.text == "" then none else p.json_parse res.text;
}

-- `get` without further options, and `post`
abbrev pub driver_get : Platform → ConformanceEnv → String → Outgoing
driver_get p env path =
    driver_request p env (record { method = "GET"; path = path; headers = []; body = none })
      Bool.true

abbrev pub driver_post : Platform → ConformanceEnv → String → Json → Headers → Outgoing
driver_post p env path body headers =
    driver_request p env
      (record { method = "POST"; path = path; headers = headers; body = some body }) Bool.true

-- `describe`
unfoldable pub describe : ConformanceEnv → String → String → String
describe env spec_section requirement = String.◌++◌ "[" (
    String.◌++◌ env.implementation_name (
      String.◌++◌ "@" (
        String.◌++◌ env.implementation_version
          (String.◌++◌ "] " (String.◌++◌ spec_section (String.◌++◌ ": " requirement))))))
