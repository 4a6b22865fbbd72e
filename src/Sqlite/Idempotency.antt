-- ===== src/Sqlite/Idempotency.antt =====
-- Idempotency of `handleCreateRun` of examples/hosts/sqlite/src/server.ts across processes: the table
-- outlives the process that wrote the row.
use Prim.Native.String
use wop.Prelude.{insert, String, ◌≡◌, none, some, lookup}
use wop.Json.{Fields, obj, str, find_field}
use wop.Platform.{Platform}
use wop.Http.{Request, check_auth}
use wop.Workflow.{FixtureWorkflow}
use wop.Memory.Host.{Tick, create_key}
use wop.Sqlite.Engine.{Process}
use wop.Sqlite.Host.{
  IdempotencyRow, Host, Clock, Reply, respond, prune_idempotency, created_body, created,
}

module _ (p : Platform) where
  -- A request that passes every test in front of the table.
  pub record Accepted (h : Host) (req : Request) (id : String) : Type 0 where
    pub fields : Fields
    pub flow : FixtureWorkflow
    pub authorized : check_auth p h.api_key req ≡ none
    pub parsed : p.json_parse req.body ≡ some (obj fields)
    pub named : find_field "workflowId" fields ≡ some (str id)
    pub known : lookup id h.workflows ≡ some flow

  module _ (me : Process) where
    -- The row that a creation leaves in the table.
    abbrev pub created_row : Tick → Request → String → IdempotencyRow
    created_row tick req text = record {
      status = 201;
      body = text;
      body_hash = p.sha256 req.body;
      stored_at = tick.stored_at;
    }

    module _ (tick : Tick) (clock : Clock) (req : Request) (h : Host) (key id : String)
        (a : Accepted h req id) (keyed : req.idempotency_key ≡ some key)
        (unused : lookup (create_key p key) (prune_idempotency tick.now h.idempotency) ≡ none)
        (fresh : lookup (String.◌++◌ "run-" tick.uuid) h.runs ≡ none) where
      -- What a first creation with the key answers and stores.
      abbrev pub first_text : String
      first_text =
          p.json_stringify (created_body p me (String.◌++◌ "run-" tick.uuid) id tick.iso_now)

      abbrev Stores : Host × Reply → Type 0
      Stores r =
          (r.1 ≡ respond (created p me (some key) first_text))
          × (r.0.idempotency
              ≡ insert (create_key p key) (created_row tick req first_text)
                  (prune_idempotency tick.now h.idempotency))
