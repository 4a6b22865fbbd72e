-- ===== src/Http.antt =====
-- Requests, responses and the plumbing that both reference hosts declare alike (`sendJSON`,
-- `sendError`, `checkAuth` of examples/hosts/in-memory/src/server.ts and of
-- examples/hosts/sqlite/src/server.ts).
use wop.Prelude.{ℕ, String, Option, none, some, List, [], ◌∷◌, strip, ◌==◌, if◌then◌else◌, maybe}
use wop.Json.{Json, str, object}
use wop.Platform.{Platform}

-- What the handlers read of `IncomingMessage`. `path` and `since` are `url.pathname` and
-- `url.searchParams.get('since')` of the URL that `route` makes; `body` is what `readBody` gives.
pub record Request : Type 0 where
  pub method : Option String
  pub path : String
  pub since : Option String
  pub authorization : Option String
  pub idempotency_key : Option String
  pub last_event_id : Option String
  pub body : String

pub record Response : Type 0 where
  pub status : ℕ
  pub headers : List (String × String)
  pub payload : String

module _ (p : Platform) where
  -- `sendJSON`
  unfoldable pub send_json : ℕ → Json → List (String × String) → Response
  send_json status body extra_headers =
      let payload = p.json_stringify body in
      record {
        status = status;
        headers =
            ("Content-Type", "application/json")
            ∷ ("Content-Length", p.content_length payload)
            ∷ extra_headers;
        payload = payload;
      }

  -- `sendError`; no caller passes `extra`.
  unfoldable pub send_error : ℕ → String → String → Response
  unfolding send_json
  send_error status code message =
      send_json status (object (("error", str code) ∷ ("message", str message) ∷ [])) []

  -- `checkAuth` for a host with this API key: the response that refuses the request, if any.
  unfoldable pub check_auth : String → Request → Option Response
  unfolding strip send_error
  check_auth api_key req =
      maybe req.authorization
        (some (send_error 401 "unauthenticated" "Missing or malformed Authorization header."))
        (λ auth.
          maybe (strip "Bearer " auth)
            (some (send_error 401 "unauthenticated" "Missing or malformed Authorization header."))
            (λ token.
              if p.trim token == api_key
              then none
              else some (send_error 401 "invalid_credential" "Bearer token rejected.")))
