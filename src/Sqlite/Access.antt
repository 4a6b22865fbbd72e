-- ===== src/Sqlite/Access.antt =====
-- Who gets in, and that the tables of the SQLite host keep their keys: `route` of
-- examples/hosts/sqlite/src/server.ts.
use wop.Prelude.{◌≡◌, refl, true, some}
use wop.Platform.{Platform}
use wop.Http.{Request, Response, check_auth}
use wop.Memory.Access.{is_protected, status-check_auth}
use wop.Memory.Host.{Tick}
use wop.Memory.Router.{
  Endpoint, discovery, open_api, create, events_poll, events_sse, debug_bundle, cancel, snapshot,
  nowhere, endpoint, method_of,
}
use wop.Sqlite.Engine.{Process}
use wop.Sqlite.Host.{Host, Clock, respond, handle_create_run}
use wop.Sqlite.Reads.{handle_get_run, handle_events_poll, handle_debug_bundle}
use wop.Sqlite.Router.{handle_cancel_run, handle_events_sse, handle, caught, route}

module _ (p : Platform) (me : Process) where
  -- Without the credential a request to any endpoint of runs changes nothing in the tables and gets
  -- 401.
  pub route_unauthorized :
      (tick : Tick) (clock : Clock) (req : Request) (h : Host) (r : Response)
      → is_protected (endpoint (method_of req.method) req.path) ≡ true
      → check_auth p h.api_key req ≡ some r
      → (route p me tick clock req h ≡ (h, respond r)) × (r.status ≡ 401)
  unfolding route handle handle_create_run handle_get_run handle_events_poll handle_debug_bundle
      handle_cancel_run handle_events_sse
  route_unauthorized tick clock req h r prot e =
      (go (endpoint (method_of req.method) req.path) prot, status-check_auth p h.api_key req r e)
    where
      go :
          (x : Endpoint)
          → is_protected x ≡ true
          → caught p me (handle p me tick clock x req.path req h) ≡ (h, respond r)
      go create q = rw e refl
      go (events_poll id) q = rw e refl
      go (events_sse id) q = rw e refl
      go (debug_bundle id) q = rw e refl
      go (cancel id) q = rw e refl
      go (snapshot id) q = rw e refl
      go discovery q = cc
      go open_api q = cc
      go nowhere q = cc
