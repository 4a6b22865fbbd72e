-- ===== src/Memory/World.antt =====
-- The in-memory host with its clients and its event loop: requests and turns of the runs, in any order.
use Prim.Native.String
use wop.Prelude.{
  String, ◌≡◌, refl, ◌∙◌, Option, none, some, List, [], ◌∷◌, lookup, insert, All, All-insert,
  All-lookup, arith, if_cases, maybe, maybe_cases, ◌==◌,
}
use wop.Json.{Json, null, str}
use wop.Platform.{Platform}
use wop.Http.{Request, Response, check_auth}
use wop.Workflow.{is_terminal}
use wop.Memory.Run.{Live}
use wop.Memory.Engine.{resume, run_workflow}
use wop.Memory.Flags.{resume_task-SameFlags, run_found-SameFlags}
use wop.Memory.Turns.{
  new_run, fresh, start, request_cancel, connect, fire_timer, disconnect, Turn, resumption, cancel,
  subscribe, turn,
}
use wop.Memory.Invariant.{Inv}
use wop.Memory.Invariant.Schedules.{turn-Inv, start-Inv}
use wop.Memory.Host.{
  Host, Tick, Reply, respond, stream, throw, create_key, replayed, conflict, pruned,
  answer_from_cache, create_run, use_idempotency_key, with_workflow_id, with_parsed,
  handle_create_run,
}
use wop.Memory.Router.{
  Endpoint, create, events_sse, endpoint, handle_cancel_run, handle_events_sse, handle, caught,
  resume_after, method_of, route,
}

-- What happens next: a request with what the clock shows, or a turn of one run.
pub data Happening : Type 0 where
  request : Tick → Request → Happening
  run_turn : String → Turn → Happening

module _ (p : Platform) where
  -- A turn of the run with this id, if there is one.
  pub turn_of : String → Turn → Host → Host
  turn_of run_id t h =
      maybe (lookup run_id h.runs) (h)
        (λ live. record h { runs = insert run_id (turn p t live) h.runs })

  pub happen : Happening → Host → Host
  unfolding turn_of
  happen (request tick req) h = (route p tick req h).0
  happen (run_turn run_id t) h = turn_of run_id t h

  pub history : List Happening → Host → Host
  history [] h = h
  history (x ∷ xs) h = history xs (happen x h)

  -- Every run is one that a schedule can reach, under its own id.
  abbrev pub IsRun : String × Live → Type 0
  IsRun (run_id, live) = Inv p live × (live.run.run_id ≡ run_id)

  abbrev pub RunsInv : Host → Type 0
  RunsInv h = All IsRun h.runs

  abbrev Kept : Host × Response → Type 0
  Kept r = RunsInv r.0

  abbrev KeptBy : Host × Reply → Type 0
  KeptBy r = RunsInv r.0

  turn-run_id : (t : Turn) (l : Live) → (turn p t l).run.run_id ≡ l.run.run_id
  unfolding turn fire_timer request_cancel connect disconnect resume
  turn-run_id resumption l = (resume_task-SameFlags p l.task l).run_id
  turn-run_id cancel l = ground arith
  turn-run_id _ l = refl

  -- The run that a turn leaves in the map.
  put-RunsInv :
      (run_id : String) (t : Turn) (l : Live) (h : Host)
      → lookup run_id h.runs ≡ some l
      → RunsInv h
      → All IsRun (insert run_id (turn p t l) h.runs)
  put-RunsInv run_id t l h found inv =
      let (good, named) = All-lookup IsRun run_id h.runs found inv in
      All-insert IsRun run_id (turn p t l) h.runs (turn-Inv p t l good, turn-run_id t l ∙ named) inv

  turn_of-RunsInv :
      (run_id : String) (t : Turn) (h : Host) → RunsInv h → RunsInv (turn_of run_id t h)
  unfolding turn_of
  turn_of-RunsInv run_id t h inv =
      maybe_cases RunsInv (lookup run_id h.runs) _ _ (λ missing. inv)
        (λ l found. put-RunsInv run_id t l h found inv)

  create_run-RunsInv :
      (tick : Tick) (key : Option String) (hash w : String) (j : Json) (h : Host)
      → RunsInv h
      → RunsInv (create_run p tick key hash w j h).0
  unfolding create_run start run_workflow
  create_run-RunsInv tick key hash w j h inv =
      let run_id = String.◌++◌ "run-" tick.uuid in
      let run = new_run run_id w j tick.iso_now in
      All-insert IsRun run_id (start p h.workflows run) h.runs
        (
          start-Inv p h.workflows run_id w j tick.iso_now,
          (run_found-SameFlags p (lookup w h.workflows) (fresh run)).run_id,
        )
        inv

  use_idempotency_key-RunsInv :
      (tick : Tick) (key : Option String) (hash w : String) (j : Json) (h : Host)
      → RunsInv h
      → RunsInv (use_idempotency_key p tick key hash w j h).0
  unfolding use_idempotency_key
  use_idempotency_key-RunsInv tick none hash w j h inv = create_run-RunsInv tick none hash w j h inv
  use_idempotency_key-RunsInv tick (some key) hash w j h inv =
      let h' = pruned tick.now h in
      maybe_cases Kept (lookup (create_key p key) h'.idempotency_cache)
        (create_run p tick (some key) hash w j h') (λ entry. answer_from_cache p entry hash h')
        (λ unused. create_run-RunsInv tick (some key) hash w j h' inv)
        (λ entry used.
          if_cases Kept (entry.body_hash == hash) (h', replayed p entry) (h', conflict p) (λ e. inv)
            (λ e. inv))

  with_workflow_id-RunsInv :
      (tick : Tick) (req : Request) (parsed : Json) (h : Host) (id : Option Json)
      → RunsInv h
      → RunsInv (with_workflow_id p tick req parsed h id).0
  with_workflow_id-RunsInv tick req parsed h (some (str id)) inv =
      maybe_cases KeptBy (lookup id h.workflows) _ _ (λ missing. inv)
        (λ flow found. use_idempotency_key-RunsInv _ _ _ _ _ h inv)
  with_workflow_id-RunsInv tick req parsed h _ inv = inv

  with_parsed-RunsInv :
      (tick : Tick) (req : Request) (h : Host) (parsed : Option Json)
      → RunsInv h
      → RunsInv (with_parsed p tick req h parsed).0
  with_parsed-RunsInv tick req h none inv = inv
  with_parsed-RunsInv tick req h (some null) inv = inv
  with_parsed-RunsInv tick req h (some parsed) inv =
      with_workflow_id-RunsInv tick req parsed h _ inv

  handle_create_run-RunsInv :
      (tick : Tick) (req : Request) (h : Host)
      → RunsInv h
      → RunsInv (handle_create_run p tick req h).0
  unfolding handle_create_run
  handle_create_run-RunsInv tick req h inv =
      maybe_cases KeptBy (check_auth p h.api_key req) _ _
        (λ passed. with_parsed-RunsInv tick req h (p.json_parse req.body) inv) (λ r refused. inv)

  handle_cancel_run-RunsInv :
      (req : Request) (run_id : String) (h : Host)
      → RunsInv h
      → RunsInv (handle_cancel_run p req run_id h).0
  unfolding handle_cancel_run request_cancel turn
  handle_cancel_run-RunsInv req run_id h inv =
      maybe_cases Kept (check_auth p h.api_key req) _ _
        (λ passed.
          maybe_cases Kept (lookup run_id h.runs) _ _ (λ missing. inv)
            (λ l found.
              if_cases Kept (is_terminal l.run.status) _ _ (λ over. inv)
                (λ going. put-RunsInv run_id cancel l h found inv)))
        (λ r refused. inv)

  handle_events_sse-RunsInv :
      (req : Request) (run_id : String) (h : Host)
      → RunsInv h
      → RunsInv (handle_events_sse p req run_id h).0
  unfolding handle_events_sse connect turn
  handle_events_sse-RunsInv req run_id h inv =
      maybe_cases KeptBy (check_auth p h.api_key req) _ _
        (λ passed.
          maybe_cases KeptBy (lookup run_id h.runs) _ _ (λ missing. inv)
            (λ l found.
              put-RunsInv run_id (subscribe (resume_after p req.last_event_id)) l h found inv))
        (λ r refused. inv)

  handle-RunsInv :
      (tick : Tick) (e : Endpoint) (path : String) (req : Request) (h : Host)
      → RunsInv h
      → RunsInv (handle p tick e path req h).0
  unfolding handle
  handle-RunsInv tick create path req h inv = handle_create_run-RunsInv tick req h inv
  handle-RunsInv tick (Endpoint.cancel id) path req h inv = handle_cancel_run-RunsInv req id h inv
  handle-RunsInv tick (events_sse id) path req h inv = handle_events_sse-RunsInv req id h inv
  handle-RunsInv tick _ path req h inv = inv

  caught-RunsInv : (r : Host × Reply) → KeptBy r → KeptBy (caught p r)
  caught-RunsInv (h, throw m) inv = inv
  caught-RunsInv (h, stream s) inv = inv
  caught-RunsInv (h, respond r) inv = inv

  happen-RunsInv : (x : Happening) (h : Host) → RunsInv h → RunsInv (happen x h)
  unfolding happen route
  happen-RunsInv (request tick req) h inv =
      caught-RunsInv _ (handle-RunsInv tick (endpoint (method_of req.method) req.path) _ req h inv)
  happen-RunsInv (run_turn run_id t) h inv = turn_of-RunsInv run_id t h inv

  -- Whatever requests come and whatever turns the event loop takes, in any order, every run of the
  -- host stands under its own id and is as the invariant says: its events are numbered from 0 and are
  -- its own, its status is terminal exactly when its execution has ended, and then its log ends with
  -- the one event of that status, and every open connection was sent what it should.
  pub history-RunsInv : (xs : List Happening) (h : Host) → RunsInv h → RunsInv (history xs h)
  unfolding history
  history-RunsInv [] h inv = inv
  history-RunsInv (x ∷ xs) h inv = history-RunsInv xs (happen x h) (happen-RunsInv x h inv)
