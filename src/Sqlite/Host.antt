-- ===== src/Sqlite/Host.antt =====
-- The state of one process of the SQLite host with the tables `runs`, `events` and `idempotency`, and
-- `handleCreateRun` of examples/hosts/sqlite/src/server.ts. A value of `runs` is a row with its events
-- and with the execution of the run in this process, if there is one.
use Prim.Native.String
use wop.Prelude.{
  ℕ, ◌-◌, String, Bool, not, Option, none, some, List, [], ◌∷◌, ◌==◌, ltb, lookup, insert, filter,
  if◌then◌else◌, maybe,
}
use wop.Json.{Json, null, str, object}
use wop.Platform.{Platform}
use wop.Http.{Request, Response, send_error, check_auth}
use wop.Workflow.{FixtureWorkflow, pending}
use wop.Memory.Host.{Tick, idempotency_ttl_ms, create_key, hash_body, inputs_of, workflow_id_of}
use wop.Sqlite.Rows.{RunRow, try_claim}
use wop.Sqlite.Engine.{Process, Execution, unstarted, run_workflow}

-- A row of `idempotency`.
pub record IdempotencyRow : Type 0 where
  pub status : ℕ
  pub body : String
  pub body_hash : String
  pub stored_at : ℕ

pub record Host : Type 0 where
  pub api_key : String
  pub claim_ttl_ms : ℕ
  pub workflows : List (String × FixtureWorkflow)
  pub runs : List (String × Execution)
  pub idempotency : List (String × IdempotencyRow)

-- What the two calls of `Date.now()` in `tryClaim` give.
pub record Clock : Type 0 where
  pub at : ℕ
  pub now : ℕ

-- A handler responds, or begins an event stream with these headers and frames and keeps it open or
-- not, or throws an error with this message.
pub data Reply : Type 0 where
  stream : List (String × String) → (frames : List String) (stays_open : Bool) → Reply
  respond : Response → Reply
  throw : String → Reply

-- `pruneIdempotency`
unfoldable pub prune_idempotency :
    ℕ → List (String × IdempotencyRow) → List (String × IdempotencyRow)
prune_idempotency now =
    filter (λ (e : String × IdempotencyRow). not (ltb e.1.stored_at (now - idempotency_ttl_ms)))

-- The host after `pruneIdempotency()`.
abbrev pub pruned : ℕ → Host → Host
pruned now h = record h { idempotency = prune_idempotency now h.idempotency }

-- The row that `insertRun` makes.
abbrev pub new_row : String → String → String → String → RunRow
new_row run_id workflow_id inputs_json started_at = record {
  run_id = run_id;
  workflow_id = workflow_id;
  status = pending;
  inputs_json = inputs_json;
  started_at = started_at;
  ended_at = none;
  error_json = none;
  claim_holder_id = none;
  claim_expires_at = none;
  events = [];
}

module _ (p : Platform) (me : Process) where
  -- `if (tryClaim(runId)) { void runWorkflow(runId)… }`, for a row of no execution in this process
  unfoldable pub claim_and_run : Clock → ℕ → List (String × FixtureWorkflow) → Execution → Execution
  claim_and_run clock claim_ttl_ms workflows x =
      let (row, won) = try_claim me.id claim_ttl_ms clock.at clock.now x.row in
      if won then run_workflow p me workflows row else x

  unfoldable pub created_body : String → String → String → Json
  created_body run_id workflow_id started_at = object (
      ("runId", str run_id)
      ∷ ("status", str "pending")
      ∷ ("workflowId", str workflow_id)
      ∷ ("startedAt", str started_at)
      ∷ [])

  -- The answers of `handleCreateRun` to a creation, to a repetition and to another body.
  abbrev pub created : Option String → String → Response
  created key text = record {
    status = 201;
    headers =
        ("Content-Type", "application/json")
        ∷ ("Content-Length", p.content_length text)
        ∷ ("WOP-Idempotent-Replay", elim key [ none ↦ "" | some _ ↦ "false" ])
        ∷ [];
    payload = text;
  }

  abbrev pub replayed : IdempotencyRow → Response
  replayed e = record {
    status = e.status;
    headers =
        ("Content-Type", "application/json")
        ∷ ("Content-Length", p.content_length e.body)
        ∷ ("WOP-Idempotent-Replay", "true")
        ∷ [];
    payload = e.body;
  }

  abbrev pub conflict : Response
  conflict =
      send_error p 409 "idempotency_key_conflict"
        "Idempotency-Key reused with a different request body."

  -- `insertIdempotency`, `none` where the key is taken and the statement throws
  abbrev pub store_created :
      Tick
      → Option String
      → String
      → String
      → List (String × IdempotencyRow)
      → Option (List (String × IdempotencyRow))
  store_created tick none hash text table = some table
  store_created tick (some key) hash text table =
      maybe (lookup (create_key p key) table)
        (some (
          insert (create_key p key)
            (record { status = 201; body = text; body_hash = hash; stored_at = tick.stored_at })
            table))
        (λ taken. none)

  -- `handleCreateRun` from `const runId = …` on. A statement that violates a primary key throws.
  unfoldable pub create_run :
      Tick → Clock → Option String → String → String → Json → Host → Host × Reply
  unfolding claim_and_run created_body
  create_run tick clock key hash workflow_id inputs h =
      let run_id = String.◌++◌ "run-" tick.uuid in
      let row = new_row run_id workflow_id (p.json_stringify inputs) tick.iso_now in
      let text = p.json_stringify (created_body run_id workflow_id tick.iso_now) in
      let inserted = record h { runs = insert run_id (unstarted p me row) h.runs } in
      maybe (lookup run_id h.runs)
        (maybe (store_created tick key hash text h.idempotency)
          ((inserted, throw (me.constraint_error "idempotency.cache_key")))
          (λ table. (
            record h {
              runs =
                  insert run_id
                    (claim_and_run clock h.claim_ttl_ms h.workflows (unstarted p me row))
                    inserted.runs;
              idempotency = table;
            },
            respond (created key text),
          )))
        (λ taken. (h, throw (me.constraint_error "runs.run_id")))

  -- The answer from a row under the key.
  abbrev pub answer_from_table : IdempotencyRow → String → Host → Host × Reply
  answer_from_table cached hash h =
      if cached.body_hash == hash then (h, respond (replayed cached)) else (h, respond conflict)

  -- The use of the table, and the creation if the key is not in it.
  unfoldable pub use_idempotency_key :
      Tick → Clock → Option String → String → String → Json → Host → Host × Reply
  use_idempotency_key tick clock none hash workflow_id inputs h =
      create_run tick clock none hash workflow_id inputs h
  use_idempotency_key tick clock (some key) hash workflow_id inputs h =
      let h' = pruned tick.now h in
      maybe (lookup (create_key p key) h'.idempotency)
        (create_run tick clock (some key) hash workflow_id inputs h')
        (λ cached. answer_from_table cached hash h')

  abbrev pub with_workflow_id : Tick → Clock → Request → Json → Host → Option Json → Host × Reply
  with_workflow_id tick clock req parsed h (some (str id)) =
      maybe (lookup id h.workflows)
        ((h, respond (send_error p 404 "workflow_not_found" "Unknown workflowId.")))
        (λ workflow.
          use_idempotency_key tick clock req.idempotency_key (hash_body p req.body) id
            (inputs_of p parsed) h)
  with_workflow_id tick clock req parsed h _ =
      (h, respond (send_error p 400 "validation_error" "workflowId MUST be a string."))

  -- Reading a property of `null` throws.
  abbrev pub with_parsed : Tick → Clock → Request → Host → Option Json → Host × Reply
  with_parsed tick clock req h none =
      (h, respond (send_error p 400 "validation_error" "Request body MUST be valid JSON."))
  with_parsed tick clock req h (some null) = (h, throw (p.null_read "workflowId"))
  with_parsed tick clock req h (some parsed) =
      with_workflow_id tick clock req parsed h (workflow_id_of p parsed)

  unfoldable pub handle_create_run : Tick → Clock → Request → Host → Host × Reply
  unfolding use_idempotency_key create_run
  handle_create_run tick clock req h =
      maybe (check_auth p h.api_key req) (with_parsed tick clock req h (p.json_parse req.body))
        (λ refused. (h, respond refused))
