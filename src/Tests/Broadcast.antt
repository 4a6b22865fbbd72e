-- ===== src/Tests/Broadcast.antt =====
-- An event stream of the SQLite host at concrete inputs: a client of the process that executes a run.
use wop.Prelude.{◌≡◌, refl, true, false, some, List, [], ◌∷◌, map}
use wop.Json.{obj, minus_one}
use wop.Platform.{Platform}
use wop.Workflow.{is_terminal, resolve_input_as_number}
use wop.Memory.Run.{Connection, on_event}
use wop.Sqlite.Rows.{append_event, update_run_status, renew_claim, set_run_terminal, release_claim}
use wop.Sqlite.Claims.{heartbeat, run_statement}
use wop.Sqlite.Engine.{
  Execution, run_workflow, run_found, run_nodes, announce, execute_node, dispatch, sleep, resume,
  resume_task, fire_timer, complete_node, after_node, finish_completed,
}
use wop.Sqlite.Reads.{get_events_after}
use wop.Sqlite.Connections.{connect, opened}
use wop.Sqlite.Turns.{Turn, timer, resumption, subscribe, elsewhere, turn, run_schedule}
use wop.Sqlite.Live.{row_of, rows_above}
use wop.Sqlite.Broadcast.{connection_sent}
use wop.Tests.{platform, workflows, wf_fields}
use wop.Tests.Sqlite.{row, process}

abbrev one_text : Platform
one_text = record platform { json_parse = λ t. some (obj wf_fields); json_stringify = λ v. "{}" }

abbrev live_turns : List Turn
live_turns =
    subscribe minus_one
    ∷ elsewhere (heartbeat "a" 60)
    ∷ timer
    ∷ resumption
    ∷ resumption
    ∷ resumption
    ∷ resumption
    ∷ []

abbrev served : Execution
served = run_schedule one_text process 1000 live_turns (run_workflow one_text process workflows row)

abbrev first : List Connection → Connection
first (c ∷ cs) = c
first [] = record {
  resume_after_seq = minus_one;
  backlog = [];
  written = [];
  ended = false;
  closed = true;
  listening = false;
}

served_one : served.connections ≡ first served.connections ∷ []
unfolding run_workflow run_found run_nodes announce execute_node dispatch sleep append_event
    run_schedule turn resume resume_task fire_timer connect opened complete_node after_node
    finish_completed run_statement on_event get_events_after update_run_status renew_claim
    set_run_terminal release_claim resolve_input_as_number
served_one = refl

closed_not : (first served.connections).closed ≡ false
unfolding run_workflow run_found run_nodes announce execute_node dispatch sleep append_event
    run_schedule turn resume resume_task fire_timer connect opened complete_node after_node
    finish_completed run_statement on_event get_events_after update_run_status renew_claim
    set_run_terminal release_claim resolve_input_as_number
closed_not = refl

connection_sent_example :
    (map (row_of one_text) (first served.connections).written
      ≡ rows_above one_text (first served.connections).resume_after_seq served.row.events)
    × ((first served.connections).ended ≡ is_terminal served.row.status)
unfolding run_workflow run_found run_nodes announce execute_node dispatch sleep append_event
    update_run_status resolve_input_as_number
connection_sent_example =
    connection_sent one_text process (λ v w h. refl) 1000 workflows row live_turns served [] []
      (first served.connections) refl tt refl (refl, (tt, (tt, (tt, (tt, (tt, (tt, tt)))))))
      served_one closed_not
