-- ===== src/Sqlite/Numbering.antt =====
-- The rows of `events` that belong to a run are numbered from 0 without a gap, whatever happens to the
-- run: `appendEvent` of examples/hosts/sqlite/src/server.ts counts them, and `(run_id, seq)` is the
-- primary key.
use wop.Prelude.{
  ℕ, suc, ◌+◌, String, ◌≡◌, true, false, Option, none, some, List, [], ◌∷◌, ◌++◌, length, lookup,
  arith, if_cases, maybe_cases, any, Bool, ◌&&◌, not,
}
use wop.Json.{Json}
use wop.Platform.{Platform}
use wop.Workflow.{
  Node, FixtureWorkflow, NodeOutcome, NodeKind, node_kind, is_terminal, EventType, RunStatus,
  node_started,
}
use wop.Memory.Run.{RunError}
use wop.Sqlite.Rows.{
  is_held_by, is_unclaimed, EventRow, RunRow, append_event, set_run_terminal, update_run_status,
  release_claim, set_cancel_requested, try_claim, renew_claim, release_on_shutdown,
}
use wop.Sqlite.Claims.{
  Statement, claim, heartbeat, shut_down, cancel, finish, start_run, append, run_statement,
}
use wop.Sqlite.Engine.{
  Process, Task, sleeping, slept, returned, finished, Execution, is_cancelling, is_run_started,
  unstarted, fire_timer, resume, resume_task, request_cancel, run_nodes, execute_node, dispatch,
  sleep, after_node, complete_node, cancel_node, finish_cancelled, finish_completed, finish_failed,
  announce, run_found, run_workflow,
}
use wop.Sqlite.Connections.{connect, disconnect}
use wop.Sqlite.Turns.{
  Turn, timer, resumption, cancel_here, subscribe, hang_up, beat, elsewhere, turn,
}

abbrev pub Numbered : String → ℕ → List EventRow → Type 0
Numbered id n [] = Unit
Numbered id n (e ∷ es) = (e.run_id ≡ id) × (e.seq ≡ n) × Numbered id (suc n) es

Numbered-append :
    (id : String) (n : ℕ) (es : List EventRow) (e : EventRow)
    → e.run_id ≡ id
    → e.seq ≡ n + length es
    → Numbered id n es
    → Numbered id n (es ++ e ∷ [])
Numbered-append id n [] e own at h = (own, omega (arith, at), tt)
Numbered-append id n (x ∷ es) e own at (hx, hn, hs) =
    (hx, hn, Numbered-append id (suc n) es e own (omega (arith, at)) hs)

-- A row with this id, and its events.
abbrev pub IsOwn : String → RunRow → Type 0
IsOwn id row = (row.run_id ≡ id) × Numbered id 0 row.events

module _ (p : Platform) (me : Process) (claim_ttl_ms : ℕ) (id : String) where
  abbrev Own : Execution → Type 0
  Own x = IsOwn id x.row

  append_event-IsOwn :
      (type : EventType) (node_id : Option String) (payload : Option Json) (row : RunRow)
      → IsOwn id row
      → IsOwn id (append_event p type node_id payload row)
  unfolding append_event
  append_event-IsOwn type node_id payload row (own, h) =
      (own, Numbered-append id 0 row.events _ own (omega arith) h)

  release_claim-IsOwn :
      (who : String) (row : RunRow) → IsOwn id row → IsOwn id (release_claim who row)
  unfolding release_claim
  release_claim-IsOwn who row h =
      if_cases (IsOwn id) (is_held_by who row.claim_holder_id) _ _ (λ e. h) (λ e. h)

  set_run_terminal-IsOwn :
      (who : String) (status : RunStatus) (error : Option RunError) (row : RunRow)
      → IsOwn id row
      → IsOwn id (set_run_terminal p who status error row)
  unfolding set_run_terminal update_run_status
  set_run_terminal-IsOwn who status error row h = release_claim-IsOwn who _ h

  finish_cancelled-Own : (x : Execution) → Own x → Own (finish_cancelled p me x)
  unfolding finish_cancelled
  finish_cancelled-Own x h =
      set_run_terminal-IsOwn me.id _ none _ (append_event-IsOwn _ none none x.row h)

  finish_completed-Own : (x : Execution) → Own x → Own (finish_completed p me x)
  unfolding finish_completed
  finish_completed-Own x h =
      set_run_terminal-IsOwn me.id _ none _ (append_event-IsOwn _ none none x.row h)

  finish_failed-Own : (e : RunError) (x : Execution) → Own x → Own (finish_failed p me e x)
  unfolding finish_failed
  finish_failed-Own e x h =
      set_run_terminal-IsOwn me.id _ (some e) _ (append_event-IsOwn _ none _ x.row h)

  dispatch-Own :
      (k : NodeKind) (n : Node) (r : List Node) (x : Execution)
      → Own x
      → Own (dispatch p me k n r x)
  unfolding dispatch sleep complete_node
  dispatch-Own NodeKind.noop n r x h = append_event-IsOwn _ _ _ x.row h
  dispatch-Own NodeKind.delay n r x h = h
  dispatch-Own NodeKind.unsupported n r x h = append_event-IsOwn _ _ _ x.row h

  execute_node-Own :
      (n : Node) (r : List Node) (x : Execution) → Own x → Own (execute_node p me n r x)
  unfolding execute_node cancel_node
  execute_node-Own n r x h =
      if_cases Own (is_cancelling x.row.status) _ _ (λ e. append_event-IsOwn _ _ _ x.row h)
        (λ e.
          dispatch-Own (node_kind n.type_id) n r _
            (append_event-IsOwn node_started (some n.id) none x.row h))

  run_nodes-Own : (ns : List Node) (x : Execution) → Own x → Own (run_nodes p me ns x)
  unfolding run_nodes
  run_nodes-Own [] x h =
      if_cases Own (is_cancelling x.row.status) _ _ (λ e. finish_cancelled-Own x h)
        (λ e. finish_completed-Own x h)
  run_nodes-Own (n ∷ r) x h =
      if_cases Own (is_cancelling x.row.status) _ _ (λ e. finish_cancelled-Own x h)
        (λ e. execute_node-Own n r x h)

  resume_task-Own : (t : Task) (x : Execution) → Own x → Own (resume_task p me t x)
  unfolding resume_task complete_node cancel_node after_node
  resume_task-Own (sleeping ms n r) x h = h
  resume_task-Own (slept true n r) x h = append_event-IsOwn _ _ _ x.row h
  resume_task-Own (slept false n r) x h = append_event-IsOwn _ _ _ x.row h
  resume_task-Own (returned NodeOutcome.completed n r) x h = run_nodes-Own r x h
  resume_task-Own (returned NodeOutcome.cancelled n r) x h = finish_cancelled-Own x h
  resume_task-Own (returned NodeOutcome.failed n r) x h = finish_failed-Own _ x h
  resume_task-Own finished x h = h

  announce-Own : (x : Execution) → Own x → Own (announce p me x)
  unfolding announce update_run_status
  announce-Own x h =
      if_cases Own (any is_run_started x.row.events) _ _
        (λ e. append_event-IsOwn _ _ _ (update_run_status RunStatus.running none none x.row) h)
        (λ e. append_event-IsOwn _ _ _ (update_run_status RunStatus.running none none x.row) h)

  run_found-Own :
      (w : Option FixtureWorkflow) (row : RunRow) → IsOwn id row → Own (run_found p me w row)
  unfolding run_found
  run_found-Own none row h = finish_failed-Own _ (unstarted p me row) h
  run_found-Own (some w) row h =
      maybe_cases Own (p.json_parse row.inputs_json) _ _
        (λ e. finish_failed-Own _ (unstarted p me row) h)
        (λ inputs e. run_nodes-Own w.nodes _ (announce-Own _ h))

  pub run_workflow-IsOwn :
      (ws : List (String × FixtureWorkflow)) (row : RunRow)
      → IsOwn id row
      → IsOwn id (run_workflow p me ws row).row
  unfolding run_workflow
  run_workflow-IsOwn ws row h = run_found-Own (lookup row.workflow_id ws) row h

  pub try_claim-IsOwn :
      (who : String) (at now : ℕ) (row : RunRow)
      → IsOwn id row
      → IsOwn id (try_claim who claim_ttl_ms at now row).0
  unfolding try_claim
  try_claim-IsOwn who at now row h =
      if_cases (λ (r : RunRow × Bool). IsOwn id r.0)
        (is_unclaimed now row && not (is_terminal row.status)) _ _ (λ e. h) (λ e. h)

  run_statement-IsOwn :
      (s : Statement) (row : RunRow) → IsOwn id row → IsOwn id (run_statement p claim_ttl_ms s row)
  unfolding run_statement renew_claim release_on_shutdown set_cancel_requested update_run_status
  run_statement-IsOwn (claim who at now) row h = try_claim-IsOwn who at now row h
  run_statement-IsOwn (heartbeat who now) row h =
      if_cases (IsOwn id) (is_held_by who row.claim_holder_id) _ _ (λ e. h) (λ e. h)
  run_statement-IsOwn (shut_down who) row h =
      if_cases (IsOwn id) (is_held_by who row.claim_holder_id) _ _ (λ e. h) (λ e. h)
  run_statement-IsOwn cancel row h = h
  run_statement-IsOwn (finish who status error) row h =
      set_run_terminal-IsOwn who status error row h
  run_statement-IsOwn start_run row h = h
  run_statement-IsOwn (append type node_id payload) row h =
      append_event-IsOwn type node_id payload row h

  pub request_cancel-IsOwn : (x : Execution) → IsOwn id x.row → IsOwn id (request_cancel x).row
  unfolding request_cancel set_cancel_requested
  request_cancel-IsOwn x h = if_cases Own (is_terminal x.row.status) _ _ (λ e. h) (λ e. h)

  -- Whatever happens in a turn, the events stay numbered, and the run's.
  pub turn-IsOwn :
      (t : Turn) (x : Execution) → IsOwn id x.row → IsOwn id (turn p me claim_ttl_ms t x).row
  unfolding turn fire_timer resume connect disconnect
  turn-IsOwn timer x h = h
  turn-IsOwn resumption x h = resume_task-Own x.task x h
  turn-IsOwn cancel_here x h = request_cancel-IsOwn x h
  turn-IsOwn (subscribe k) x h = h
  turn-IsOwn (hang_up i) x h = h
  turn-IsOwn (beat now) x h =
      if_cases Own x.registered _ _ (λ beats. run_statement-IsOwn (heartbeat me.id now) x.row h)
        (λ stopped. h)
  turn-IsOwn (elsewhere s) x h = run_statement-IsOwn s x.row h
