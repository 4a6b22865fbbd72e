-- ===== src/Sqlite/Agreement.antt =====
-- Where the two reference hosts give the same answer: `handleGetRun` and `handleCancelRun` of
-- examples/hosts/in-memory/src/server.ts and of examples/hosts/sqlite/src/server.ts.
use wop.Prelude.{
  String, ◌≡◌, ◌≢◌, refl, Option-cases, Bool-cases, inl, inr, Option, none, some, lookup, ◌==◌,
  eq_iff, arith, false,
}
use wop.Platform.{Platform}
use wop.Http.{Request, Response, check_auth}
use wop.Workflow.{is_terminal}
use wop.Memory.Run.{Run, RunError, Live}
use wop.Memory.Engine.{error_json}
use wop.Memory.Host
use wop.Memory.Reads
use wop.Memory.Router
use wop.Sqlite.Rows.{RunRow}
use wop.Sqlite.Engine.{Process, Execution}
use wop.Sqlite.Host.{Host, respond}
use wop.Sqlite.Reads.{parsed, snapshot, handle_get_run, error_field}
use wop.Sqlite.Router.{handle_cancel_run}

module _ (p : Platform) where
  -- The text of an error, as a row holds it, is read back as the error.
  abbrev pub ReadsAs : Option String → Option RunError → Type 0
  ReadsAs none none = Unit
  ReadsAs (some text) (some e) = (text ≢ "") × (p.json_parse text ≡ some (error_json e))
  ReadsAs _ _ = ⊥

  -- A row that holds what the other host has in memory.
  pub record Mirrors (row : RunRow) (run : Run) : Type 0 where
    pub run_id : row.run_id ≡ run.run_id
    pub workflow_id : row.workflow_id ≡ run.workflow_id
    pub status : row.status ≡ run.status
    pub started_at : row.started_at ≡ run.started_at
    pub ended_at : row.ended_at ≡ run.ended_at
    pub inputs : p.json_parse row.inputs_json ≡ some run.inputs
    pub error : ReadsAs row.error_json run.error

  -- The two hosts have the same key, and under the id both have nothing, or a row and its run.
  abbrev pub BothHave : Option Execution → Option Live → Type 0
  BothHave none none = Unit
  BothHave (some x) (some live) = Mirrors x.row live.run
  BothHave _ _ = ⊥

  pub record Agree (s : Host) (h : wop.Memory.Host.Host) (id : String) : Type 0 where
    pub key : s.api_key ≡ h.api_key
    pub run : BothHave (lookup id s.runs) (lookup id h.runs)

  module _ (me : Process) where
    error_field-ReadsAs :
        (o : Option String) (e : Option RunError)
        → ReadsAs o e
        → error_field p me o ≡ parsed (wop.Memory.Reads.error_field e)
    error_field-ReadsAs none none r = refl
    error_field-ReadsAs none (some e) r = absurd r
    error_field-ReadsAs (some text) none r = absurd r
    error_field-ReadsAs (some text) (some e) (full, reads) =
        let written : (text == "") ≡ false = ground (arith, full, eq_iff text "") in
        rw (written, reads) refl

    Mirrors-snapshot :
        (row : RunRow) (run : Run)
        → Mirrors row run
        → snapshot p me row ≡ parsed (wop.Memory.Reads.snapshot run)
    unfolding snapshot wop.Memory.Reads.snapshot
    Mirrors-snapshot row run m =
        rw
          (
            m.inputs,
            error_field-ReadsAs row.error_json run.error m.error,
            m.run_id,
            m.workflow_id,
            m.status,
            m.started_at,
            m.ended_at,
          )
          refl

    module _ (s : Host) (h : wop.Memory.Host.Host) (req : Request) (id : String)
        (a : Agree s h id) where
      get-same :
          (o : Option Execution) (o' : Option Live)
          → lookup id s.runs ≡ o
          → lookup id h.runs ≡ o'
          → BothHave o o'
          → check_auth p h.api_key req ≡ none
          → handle_get_run p me req id s ≡ respond (wop.Memory.Reads.handle_get_run p req id h)
      unfolding handle_get_run wop.Memory.Reads.handle_get_run
      get-same none none e e' b passed = rw (a.key, passed, e, e') refl
      get-same none (some live) e e' b passed = absurd b
      get-same (some x) none e e' b passed = absurd b
      get-same (some x) (some live) e e' b passed =
          rw (a.key, passed, e, e', Mirrors-snapshot x.row live.run b) refl

      cancel-same :
          (o : Option Execution) (o' : Option Live)
          → lookup id s.runs ≡ o
          → lookup id h.runs ≡ o'
          → BothHave o o'
          → check_auth p h.api_key req ≡ none
          → (handle_cancel_run p me req id s).1
            ≡ respond (wop.Memory.Router.handle_cancel_run p req id h).1
      unfolding handle_cancel_run wop.Memory.Router.handle_cancel_run
      cancel-same none none e e' b passed = rw (a.key, passed, e, e') refl
      cancel-same none (some live) e e' b passed = absurd b
      cancel-same (some x) none e e' b passed = absurd b
      cancel-same (some x) (some live) e e' b passed =
          elim (Bool-cases (is_terminal live.run.status)) [
            | inl ended ↦ rw (a.key, passed, e, e', b.status, ended) refl
            | inr going ↦ rw (a.key, passed, e, e', b.status, going) refl
          ]

      get-refused :
          (r : Response)
          → check_auth p h.api_key req ≡ some r
          → handle_get_run p me req id s ≡ respond (wop.Memory.Reads.handle_get_run p req id h)
      unfolding handle_get_run wop.Memory.Reads.handle_get_run
      get-refused r e = rw (a.key, e) refl

      cancel-refused :
          (r : Response)
          → check_auth p h.api_key req ≡ some r
          → (handle_cancel_run p me req id s).1
            ≡ respond (wop.Memory.Router.handle_cancel_run p req id h).1
      unfolding handle_cancel_run wop.Memory.Router.handle_cancel_run
      cancel-refused r e = rw (a.key, e) refl

      -- Where the row of a run holds what the in-memory host holds of it, or neither host has it, and
      -- their keys are the same, the two hosts answer a read of the run, and a cancel request to it,
      -- with the same response, refused or not.
      pub hosts_agree :
          (handle_get_run p me req id s ≡ respond (wop.Memory.Reads.handle_get_run p req id h))
          × ((handle_cancel_run p me req id s).1
              ≡ respond (wop.Memory.Router.handle_cancel_run p req id h).1)
      hosts_agree = elim (Option-cases (check_auth p h.api_key req)) [
        | inl passed ↦ (
          get-same (lookup id s.runs) (lookup id h.runs) refl refl a.run passed,
          cancel-same (lookup id s.runs) (lookup id h.runs) refl refl a.run passed,
        )
        | inr (r, refused) ↦ (get-refused r refused, cancel-refused r refused)
      ]
