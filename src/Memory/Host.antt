-- ===== src/Memory/Host.antt =====
-- The state of the in-memory host (`workflows`, `runs`, `idempotencyCache`) and `handleCreateRun` of
-- examples/hosts/in-memory/src/server.ts. One value of `runs` holds a run with its connections and its
-- task. Cache keys and body hashes are those of `sha256`.
use Prim.Native.String
use wop.Prelude.{
  ℕ, ◌-◌, ◌*◌, String, not, Option, none, some, List, [], ◌∷◌, ◌==◌, ltb, lookup, insert, filter,
  if◌then◌else◌, maybe,
}
use wop.Json.{Json, str, obj, null, end, object, find_field}
use wop.Platform.{Platform}
use wop.Http.{Request, Response, send_error, check_auth}
use wop.Workflow.{FixtureWorkflow, status_text}
use wop.Memory.Run.{Run, Live}
use wop.Memory.Turns.{new_run, start}

pub record IdempotencyEntry : Type 0 where
  pub status : ℕ
  pub body : String
  pub content_type : String
  pub body_hash : String
  pub stored_at : ℕ

pub record Host : Type 0 where
  pub api_key : String
  pub workflows : List (String × FixtureWorkflow)
  pub runs : List (String × Live)
  pub idempotency_cache : List (String × IdempotencyEntry)

abbrev pub idempotency_ttl_ms : ℕ
idempotency_ttl_ms = 24 * 60 * 60 * 1000

-- What `Date.now()` (when the cache is pruned, and when the entry is stored), `new Date()` and
-- `randomUUID` give to one request.
pub record Tick : Type 0 where
  pub now : ℕ
  pub stored_at : ℕ
  pub iso_now : String
  pub uuid : String

-- A handler responds, or begins an event stream with these headers, or throws an error with this
-- message, which `route(…).catch` handles.
pub data Reply : Type 0 where
  stream : List (String × String) → Reply
  respond : Response → Reply
  throw : String → Reply

-- The entries that `pruneIdempotencyCache` keeps. Before 1970 plus the TTL the cutoff is negative,
-- and so is no time below it; nor is one below 0.
unfoldable pub prune_idempotency_cache :
    ℕ → List (String × IdempotencyEntry) → List (String × IdempotencyEntry)
prune_idempotency_cache now =
    filter (λ (e : String × IdempotencyEntry). not (ltb e.1.stored_at (now - idempotency_ttl_ms)))

-- The host after `pruneIdempotencyCache()`.
abbrev pub pruned : ℕ → Host → Host
pruned now h = record h { idempotency_cache = prune_idempotency_cache now h.idempotency_cache }

module _ (p : Platform) where
  unfoldable pub hash_body : String → String
  hash_body body = p.sha256 body

  unfoldable pub build_idempotency_cache_key : String → String → String
  build_idempotency_cache_key endpoint key =
      p.sha256 (String.◌++◌ "single-tenant:" (String.◌++◌ endpoint (String.◌++◌ ":" key)))

  abbrev pub create_key : String → String
  create_key key = build_idempotency_cache_key "POST /v1/runs" key

  -- `responseBody`
  abbrev pub created_body : Run → Json
  created_body run = object (
      ("runId", str run.run_id)
      ∷ ("status", str (status_text run.status))
      ∷ ("workflowId", str run.workflow_id)
      ∷ ("startedAt", str run.started_at)
      ∷ [])

  unfoldable pub created_text : Run → String
  created_text run = p.json_stringify (created_body run)

  abbrev pub created : Option String → String → Response
  created key text = record {
    status = 201;
    headers =
        ("Content-Type", "application/json")
        ∷ ("Content-Length", p.content_length text)
        ∷ ("WOP-Idempotent-Replay", elim key [ none ↦ "" | some _ ↦ "false" ])
        ∷ [];
    payload = text;
  }

  abbrev pub replayed : IdempotencyEntry → Response
  replayed e = record {
    status = e.status;
    headers =
        ("Content-Type", e.content_type)
        ∷ ("Content-Length", p.content_length e.body)
        ∷ ("WOP-Idempotent-Replay", "true")
        ∷ [];
    payload = e.body;
  }

  abbrev pub conflict : Response
  conflict =
      send_error p 409 "idempotency_key_conflict"
        "Idempotency-Key reused with a different request body. A key MUST pin exactly one logical operation."

  -- The entry that a created run leaves in the cache.
  abbrev pub cache_created :
      Tick
      → Option String
      → String
      → String
      → List (String × IdempotencyEntry)
      → List (String × IdempotencyEntry)
  cache_created tick none hash text cache = cache
  cache_created tick (some key) hash text cache =
      insert (create_key key)
        (record {
          status = 201;
          body = text;
          content_type = "application/json";
          body_hash = hash;
          stored_at = tick.stored_at;
        })
        cache

  -- `handleCreateRun` from `const runId = …` on.
  unfoldable pub create_run : Tick → Option String → String → String → Json → Host → Host × Response
  unfolding created_text
  create_run tick key hash workflow_id inputs h =
      let run_id = String.◌++◌ "run-" tick.uuid in
      let run = new_run run_id workflow_id inputs tick.iso_now in
      let text = created_text run in
      (
        record h {
          runs = insert run_id (start p h.workflows run) h.runs;
          idempotency_cache = cache_created tick key hash text h.idempotency_cache;
        },
        created key text,
      )

  -- The answer from an entry under the key.
  abbrev pub answer_from_cache : IdempotencyEntry → String → Host → Host × Response
  answer_from_cache entry hash h =
      if entry.body_hash == hash then (h, replayed entry) else (h, conflict)

  -- The use of the cache, and the creation if the key is not in it.
  unfoldable pub use_idempotency_key :
      Tick → Option String → String → String → Json → Host → Host × Response
  use_idempotency_key tick none hash workflow_id inputs h =
      create_run tick none hash workflow_id inputs h
  use_idempotency_key tick (some key) hash workflow_id inputs h =
      let h' = pruned tick.now h in
      maybe (lookup (create_key key) h'.idempotency_cache)
        (create_run tick (some key) hash workflow_id inputs h')
        (λ entry. answer_from_cache entry hash h')

  -- `… ?? {}`
  abbrev or_empty : Option Json → Json
  or_empty none = obj end
  or_empty (some null) = obj end
  or_empty (some v) = v

  -- `parsed.inputs ?? {}`
  abbrev pub inputs_of : Json → Json
  inputs_of (obj fs) = or_empty (find_field "inputs" fs)
  inputs_of v = or_empty (p.exotic_property v (str "inputs"))

  -- `parsed.workflowId`, of a value that is not null
  abbrev pub workflow_id_of : Json → Option Json
  workflow_id_of (obj fs) = find_field "workflowId" fs
  workflow_id_of v = p.exotic_property v (str "workflowId")

  abbrev pub with_workflow_id : Tick → Request → Json → Host → Option Json → Host × Reply
  with_workflow_id tick req parsed h (some (str id)) =
      maybe (lookup id h.workflows)
        ((h, respond (send_error p 404 "workflow_not_found" "Unknown workflowId.")))
        (λ workflow.
          let (h', r) =
            use_idempotency_key tick req.idempotency_key (hash_body req.body) id (inputs_of parsed)
              h in
          (h', respond r))
  with_workflow_id tick req parsed h _ =
      (h, respond (send_error p 400 "validation_error" "workflowId MUST be a string."))

  -- Reading a property of `null` throws.
  abbrev pub with_parsed : Tick → Request → Host → Option Json → Host × Reply
  with_parsed tick req h none =
      (h, respond (send_error p 400 "validation_error" "Request body MUST be valid JSON."))
  with_parsed tick req h (some null) = (h, throw (p.null_read "workflowId"))
  with_parsed tick req h (some parsed) = with_workflow_id tick req parsed h (workflow_id_of parsed)

  unfoldable pub handle_create_run : Tick → Request → Host → Host × Reply
  unfolding use_idempotency_key create_run
  handle_create_run tick req h =
      maybe (check_auth p h.api_key req) (with_parsed tick req h (p.json_parse req.body))
        (λ refused. (h, respond refused))
