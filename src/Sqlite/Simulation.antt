-- ===== src/Sqlite/Simulation.antt =====
-- The two reference hosts side by side on one run: what relates an execution of
-- examples/hosts/sqlite/src/server.ts to one of examples/hosts/in-memory/src/server.ts.
use wop.Prelude.{
  ℕ, suc, String, ◌≡◌, refl, sym, ap, ◌∙◌, true, false, Option, some, List, [], ◌∷◌, map,
  map-append, length, arith, if◌then◌else◌, if_cases,
}
use wop.Json.{Json}
use wop.Platform.{Platform}
use wop.Workflow.{EventType, RunStatus, is_terminal}
use wop.Memory.Run.{Run, RunEvent, RunError, Live}
use wop.Memory.Run as MemoryRun
use wop.Memory.Engine as MemoryEngine
use wop.Sqlite.Rows.{
  is_held_by, EventRow, RunRow, append_event, set_run_terminal, update_run_status, release_claim,
}
use wop.Sqlite.Engine
use wop.Sqlite.Engine.{Process, Task, Execution, is_finished}

-- An event without its data: the messages of the two hosts differ.
pub record Mark : Type 0 where
  pub seq : ℕ
  pub run_id : String
  pub type : EventType
  pub node_id : Option String
  pub timestamp : String

abbrev pub row_mark : EventRow → Mark
row_mark e = record {
  seq = e.seq;
  run_id = e.run_id;
  type = e.type;
  node_id = e.node_id;
  timestamp = e.timestamp;
}

abbrev pub event_mark : RunEvent → Mark
event_mark e = record {
  seq = e.seq;
  run_id = e.run_id;
  type = e.type;
  node_id = e.node_id;
  timestamp = e.timestamp;
}

-- The same place in the two async functions.
abbrev pub plain_task : Task → MemoryRun.Task
plain_task (Task.sleeping ms node rest) = MemoryRun.Task.sleeping ms node rest
plain_task (Task.slept by_timer node rest) = MemoryRun.Task.slept by_timer node rest
plain_task (Task.returned outcome node rest) = MemoryRun.Task.returned outcome rest
plain_task Task.finished = MemoryRun.Task.finished

-- A cancel request is a flag in the one host and a status in the other.
abbrev pub seen_status : Run → RunStatus
seen_status run =
    if is_terminal run.status
    then run.status
    else if run.cancel_requested
    then RunStatus.cancelling
    else run.status

module _ (p : Platform) (me : Process) where
  -- In the middle of a turn.
  pub record Mid (l : Live) (x : Execution) : Type 0 where
    pub run_id : x.row.run_id ≡ l.run.run_id
    pub log : map row_mark x.row.events ≡ map event_mark l.run.events
    pub running : l.run.status ≡ RunStatus.running
    pub status :
        x.row.status ≡ (if l.run.cancel_requested then RunStatus.cancelling else RunStatus.running)
    pub ended_at : x.row.ended_at ≡ l.run.ended_at
    pub inputs : x.inputs ≡ l.run.inputs
    pub aborted : x.aborted ≡ l.run.aborted
    pub registered : x.registered ≡ true

  -- Between two turns: the same events, the same status, and the same place; while it goes on, the
  -- same inputs and the same signal.
  pub record Alike (l : Live) (x : Execution) : Type 0 where
    pub run_id : x.row.run_id ≡ l.run.run_id
    pub log : map row_mark x.row.events ≡ map event_mark l.run.events
    pub task : l.task ≡ plain_task x.task
    pub status : x.row.status ≡ seen_status l.run
    pub ended_at : x.row.ended_at ≡ l.run.ended_at
    pub over : is_finished x.task ≡ is_terminal l.run.status
    pub running : is_finished x.task ≡ false → l.run.status ≡ RunStatus.running
    pub inputs : is_finished x.task ≡ false → x.inputs ≡ l.run.inputs
    pub aborted : is_finished x.task ≡ false → x.aborted ≡ l.run.aborted
    pub registered : is_finished x.task ≡ false → x.registered ≡ true

  length-marks :
      (es : List EventRow) (fs : List RunEvent)
      → map row_mark es ≡ map event_mark fs
      → length es ≡ length fs
  length-marks [] [] h = refl
  length-marks [] (f ∷ fs) h = cc
  length-marks (e ∷ es) [] h = cc
  length-marks (e ∷ es) (f ∷ fs) h = ap (λ (n : ℕ). suc n) (length-marks es fs (ground (arith, h)))

  pub append-log :
      (type : EventType) (node_id : Option String) (a b : Option Json) (l : Live) (x : Execution)
      → x.row.run_id ≡ l.run.run_id
      → map row_mark x.row.events ≡ map event_mark l.run.events
      → map row_mark (append_event p type node_id a x.row).events
        ≡ map event_mark (MemoryRun.append_event p type node_id b l).run.events
  unfolding append_event MemoryRun.append_event MemoryRun.new_event
  append-log type node_id a b l x own log =
      let same = length-marks x.row.events l.run.events log in
      map-append row_mark x.row.events _
      ∙ rw (log, same, own) (sym (map-append event_mark l.run.events _))

  pub append-Mid :
      (type : EventType) (node_id : Option String) (a b : Option Json) (l : Live) (x : Execution)
      → Mid l x
      → Mid (MemoryRun.append_event p type node_id b l) (Engine.append p me type node_id a x)
  unfolding append_event MemoryRun.append_event
  append-Mid type node_id a b l x m = record {
    run_id = m.run_id;
    log = append-log type node_id a b l x m.run_id m.log;
    running = m.running;
    status = m.status;
    ended_at = m.ended_at;
    inputs = m.inputs;
    aborted = m.aborted;
    registered = m.registered;
  }

  -- A turn that leaves the run going.
  Mid-Alike :
      (l : Live) (x : Execution)
      → l.task ≡ plain_task x.task
      → is_finished x.task ≡ false
      → Mid l x
      → Alike l x
  Mid-Alike l x same going m = record {
    run_id = m.run_id;
    log = m.log;
    task = same;
    status = m.status ∙ rw m.running refl;
    ended_at = m.ended_at;
    over = going ∙ rw m.running refl;
    running = λ e. m.running;
    inputs = λ e. m.inputs;
    aborted = λ e. m.aborted;
    registered = λ e. m.registered;
  }

  -- The two functions wait at the same place.
  pub tasked-Alike :
      (t : Task) (l : Live) (x : Execution)
      → is_finished t ≡ false
      → Mid l x
      → Alike (record l { task = plain_task t }) (record x { task = t })
  tasked-Alike t l x going m =
      Mid-Alike (record l { task = plain_task t }) (record x { task = t }) refl going
        (record {
          run_id = m.run_id;
          log = m.log;
          running = m.running;
          status = m.status;
          ended_at = m.ended_at;
          inputs = m.inputs;
          aborted = m.aborted;
          registered = m.registered;
        })

  pub Alike-Mid : (l : Live) (x : Execution) → is_finished x.task ≡ false → Alike l x → Mid l x
  Alike-Mid l x going a = record {
    run_id = a.run_id;
    log = a.log;
    running = a.running going;
    status = a.status ∙ rw (a.running going) refl;
    ended_at = a.ended_at;
    inputs = a.inputs going;
    aborted = a.aborted going;
    registered = a.registered going;
  }

  fields-set_run_terminal :
      (status : RunStatus) (error : Option RunError) (row : RunRow)
      → let r = set_run_terminal p me.id status error row in
        (r.run_id ≡ row.run_id)
        × (r.events ≡ row.events)
        × (r.status ≡ status)
        × (r.ended_at ≡ some (p.ended_time row.run_id))
  unfolding set_run_terminal update_run_status release_claim
  fields-set_run_terminal status error row =
      if_cases
        (λ (r : RunRow).
          (r.run_id ≡ row.run_id)
          × (r.events ≡ row.events)
          × (r.status ≡ status)
          × (r.ended_at ≡ some (p.ended_time row.run_id)))
        (is_held_by me.id row.claim_holder_id) _ _ (λ e. (refl, refl, refl, refl))
        (λ e. (refl, refl, refl, refl))

  -- The end of an execution, after its closing event was appended.
  pub end_run-Alike :
      (status : RunStatus) (error : Option RunError) (l : Live) (x : Execution)
      → is_terminal status ≡ true
      → l.run.status ≡ status
      → x.row.run_id ≡ l.run.run_id
      → map row_mark x.row.events ≡ map event_mark l.run.events
      → Alike (MemoryEngine.end_run p l) (Engine.end_run p me status error x)
  end_run-Alike status error l x closed set own log =
      let (id, events, now, ended) = fields-set_run_terminal status error x.row in
      let terminal : is_terminal l.run.status ≡ true = rw set closed in
      record {
        run_id = id ∙ own;
        log = ap (map row_mark) events ∙ log;
        task = refl;
        status = now ∙ rw terminal (sym set);
        ended_at = ended ∙ ap (λ (r : String). some (p.ended_time r)) own;
        over = sym terminal;
        running = λ e. cc;
        inputs = λ e. cc;
        aborted = λ e. cc;
        registered = λ e. cc;
      }
