-- ===== src/Sqlite/Tables.antt =====
-- The primary keys of the SQLite host's tables are never violated by a request to one of its processes
-- (the handlers and the router of examples/hosts/sqlite/src/server.ts).
use Prim.Native.String
use wop.Prelude.{
  ℕ, String, refl, ◌-◌, not, Option, none, some, List, lookup, insert, All, All-insert, All-lookup,
  NoDup, keys, NoDup-insert, NoDup-keys_where, subst, ltb, if_cases, maybe_cases, ◌==◌,
}
use wop.Json.{Json, null, str}
use wop.Platform.{Platform}
use wop.Http.{Request, check_auth}
use wop.Workflow.{FixtureWorkflow, is_terminal}
use wop.Memory.Host.{Tick, create_key, idempotency_ttl_ms}
use wop.Memory.Router.{Endpoint, create, endpoint, method_of, resume_after}
use wop.Sqlite.Rows.{try_claim}
use wop.Sqlite.Engine.{Process, Execution, unstarted, request_cancel}
use wop.Sqlite.Connections.{connect}
use wop.Sqlite.Numbering.{IsOwn, run_workflow-IsOwn, try_claim-IsOwn, request_cancel-IsOwn}
use wop.Sqlite.Host.{
  IdempotencyRow, Host, Clock, Reply, stream, respond, throw, prune_idempotency, pruned, new_row,
  claim_and_run, store_created, answer_from_table, replayed, conflict, create_run,
  use_idempotency_key, with_workflow_id, with_parsed, handle_create_run,
}
use wop.Sqlite.Router.{handle_cancel_run, handle_events_sse, handle, caught, route}

abbrev pub IsOwnEntry : String × Execution → Type 0
IsOwnEntry (id, x) = IsOwn id x.row

-- No two rows of `runs` have one id, nor two rows of `idempotency` one key; every run stands under
-- its id, and its events are its own and numbered from 0.
abbrev pub Keyed : Host → Type 0
Keyed h = NoDup (keys h.runs) × All IsOwnEntry h.runs × NoDup (keys h.idempotency)

module _ (p : Platform) (me : Process) where
  abbrev KeptBy : Host × Reply → Type 0
  KeptBy r = Keyed r.0

  put-Keyed :
      (id : String) (x : Execution) (h : Host)
      → IsOwn id x.row
      → Keyed h
      → Keyed (record h { runs = insert id x h.runs })
  put-Keyed id x h own (unique, owns, ids) =
      (NoDup-insert id x h.runs unique, All-insert IsOwnEntry id x h.runs own owns, ids)

  pub claim_and_run-IsOwn :
      (clock : Clock) (ttl : ℕ) (ws : List (String × FixtureWorkflow)) (id : String) (x : Execution)
      → IsOwn id x.row
      → IsOwn id (claim_and_run p me clock ttl ws x).row
  unfolding claim_and_run
  claim_and_run-IsOwn clock ttl ws id x own =
      let claimed = try_claim me.id ttl clock.at clock.now x.row in
      if_cases (λ (y : Execution). IsOwn id y.row) claimed.1 _ _
        (λ won.
          run_workflow-IsOwn p me ttl id ws claimed.0
            (try_claim-IsOwn p me ttl id me.id clock.at clock.now x.row own))
        (λ lost. own)

  abbrev IsTable : Option (List (String × IdempotencyRow)) → Type 0
  IsTable none = Unit
  IsTable (some table) = NoDup (keys table)

  store_created-IsTable :
      (tick : Tick) (key : Option String) (hash text : String)
      (table : List (String × IdempotencyRow))
      → NoDup (keys table)
      → IsTable (store_created p me tick key hash text table)
  store_created-IsTable tick none hash text table d = d
  store_created-IsTable tick (some key) hash text table d =
      maybe_cases IsTable (lookup (create_key p key) table) _ _
        (λ fresh. NoDup-insert (create_key p key) _ table d) (λ x taken. tt)

  create_run-Keyed :
      (tick : Tick) (clock : Clock) (key : Option String) (hash w : String) (j : Json) (h : Host)
      → Keyed h
      → KeptBy (create_run p me tick clock key hash w j h)
  unfolding create_run
  create_run-Keyed tick clock key hash w j h k =
      let run_id = String.◌++◌ "run-" tick.uuid in
      let row = new_row run_id w (p.json_stringify j) tick.iso_now in
      let inserted = put-Keyed run_id (unstarted p me row) h (refl, tt) k in
      maybe_cases KeptBy (lookup run_id h.runs) _ _
        (λ fresh.
          maybe_cases KeptBy (store_created p me tick key hash _ h.idempotency) _ _
            (λ taken. inserted)
            (λ table stored. (
              NoDup-insert run_id _ _ inserted.0,
              All-insert IsOwnEntry run_id _ _
                  (claim_and_run-IsOwn clock h.claim_ttl_ms h.workflows run_id (unstarted p me row)
                    (refl, tt))
                  inserted.1,
              subst IsTable stored (store_created-IsTable tick key hash _ h.idempotency k.2),
            )))
        (λ x taken. k)

  pruned-Keyed : (now : ℕ) (h : Host) → Keyed h → Keyed (pruned now h)
  unfolding prune_idempotency
  pruned-Keyed now h (unique, owns, ids) = (
    unique,
    owns,
    NoDup-keys_where (λ (e : IdempotencyRow). not (ltb e.stored_at (now - idempotency_ttl_ms)))
        h.idempotency ids,
  )

  use_idempotency_key-Keyed :
      (tick : Tick) (clock : Clock) (key : Option String) (hash w : String) (j : Json) (h : Host)
      → Keyed h
      → KeptBy (use_idempotency_key p me tick clock key hash w j h)
  unfolding use_idempotency_key
  use_idempotency_key-Keyed tick clock none hash w j h k =
      create_run-Keyed tick clock none hash w j h k
  use_idempotency_key-Keyed tick clock (some key) hash w j h k =
      let h' = pruned tick.now h in
      let k' = pruned-Keyed tick.now h k in
      maybe_cases KeptBy (lookup (create_key p key) h'.idempotency)
        (create_run p me tick clock (some key) hash w j h')
        (λ cached. answer_from_table p me cached hash h')
        (λ unused. create_run-Keyed tick clock (some key) hash w j h' k')
        (λ cached used.
          if_cases KeptBy (cached.body_hash == hash) (h', respond (replayed p me cached))
            (h', respond (conflict p me)) (λ e. k') (λ e. k'))

  with_workflow_id-Keyed :
      (tick : Tick) (clock : Clock) (req : Request) (parsed : Json) (h : Host) (id : Option Json)
      → Keyed h
      → KeptBy (with_workflow_id p me tick clock req parsed h id)
  with_workflow_id-Keyed tick clock req parsed h (some (str id)) k =
      maybe_cases KeptBy (lookup id h.workflows) _ _ (λ missing. k)
        (λ flow found. use_idempotency_key-Keyed _ _ _ _ _ _ h k)
  with_workflow_id-Keyed tick clock req parsed h _ k = k

  with_parsed-Keyed :
      (tick : Tick) (clock : Clock) (req : Request) (h : Host) (parsed : Option Json)
      → Keyed h
      → KeptBy (with_parsed p me tick clock req h parsed)
  with_parsed-Keyed tick clock req h none k = k
  with_parsed-Keyed tick clock req h (some null) k = k
  with_parsed-Keyed tick clock req h (some parsed) k =
      with_workflow_id-Keyed tick clock req parsed h _ k

  handle_create_run-Keyed :
      (tick : Tick) (clock : Clock) (req : Request) (h : Host)
      → Keyed h
      → KeptBy (handle_create_run p me tick clock req h)
  unfolding handle_create_run
  handle_create_run-Keyed tick clock req h k =
      maybe_cases KeptBy (check_auth p h.api_key req) _ _
        (λ passed. with_parsed-Keyed tick clock req h (p.json_parse req.body) k) (λ r refused. k)

  handle_cancel_run-Keyed :
      (req : Request) (run_id : String) (h : Host)
      → Keyed h
      → KeptBy (handle_cancel_run p me req run_id h)
  unfolding handle_cancel_run
  handle_cancel_run-Keyed req run_id h k =
      maybe_cases KeptBy (check_auth p h.api_key req) _ _
        (λ passed.
          maybe_cases KeptBy (lookup run_id h.runs) _ _ (λ missing. k)
            (λ x found.
              if_cases KeptBy (is_terminal x.row.status) _ _ (λ over. k)
                (λ going.
                  put-Keyed run_id (request_cancel x) h
                    (request_cancel-IsOwn p me 0 run_id x
                      (All-lookup IsOwnEntry run_id h.runs found k.1))
                    k)))
        (λ r refused. k)

  handle_events_sse-Keyed :
      (req : Request) (run_id : String) (h : Host)
      → Keyed h
      → KeptBy (handle_events_sse p me req run_id h)
  unfolding handle_events_sse connect
  handle_events_sse-Keyed req run_id h k =
      maybe_cases KeptBy (check_auth p h.api_key req) _ _
        (λ passed.
          maybe_cases KeptBy (lookup run_id h.runs) _ _ (λ missing. k)
            (λ x found.
              put-Keyed run_id (connect p me (resume_after p req.last_event_id) x) h
                (All-lookup IsOwnEntry run_id h.runs found k.1) k))
        (λ r refused. k)

  pub handle-Keyed :
      (tick : Tick) (clock : Clock) (e : Endpoint) (path : String) (req : Request) (h : Host)
      → Keyed h
      → KeptBy (handle p me tick clock e path req h)
  unfolding handle
  handle-Keyed tick clock create path req h k = handle_create_run-Keyed tick clock req h k
  handle-Keyed tick clock (Endpoint.cancel id) path req h k = handle_cancel_run-Keyed req id h k
  handle-Keyed tick clock (Endpoint.events_sse id) path req h k = handle_events_sse-Keyed req id h k
  handle-Keyed tick clock _ path req h k = k

  pub caught-Keyed : (r : Host × Reply) → KeptBy r → KeptBy (caught p me r)
  caught-Keyed (h, throw message) k = k
  caught-Keyed (h, stream hs frames stays_open) k = k
  caught-Keyed (h, respond r) k = k

  pub route-Keyed :
      (tick : Tick) (clock : Clock) (req : Request) (h : Host)
      → Keyed h
      → KeptBy (route p me tick clock req h)
  unfolding route
  route-Keyed tick clock req h k =
      caught-Keyed _
        (handle-Keyed tick clock (endpoint (method_of req.method) req.path) req.path req h k)
