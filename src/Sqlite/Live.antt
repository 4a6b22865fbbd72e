-- ===== src/Sqlite/Live.antt =====
-- What an event stream of the SQLite host is sent: `appendEvent`, `handleEventsSse` and the event bus of
-- examples/hosts/sqlite/src/server.ts. The bus is one process's own.
use wop.Prelude.{
  ◌+◌, String, ◌≡◌, refl, sym, ◌∙◌, Bool, true, false, not, Option, none, some, List, [], ◌∷◌, ◌++◌,
  map, map-append, filter, filter-append, length, All, arith,
}
use wop.Json.{Json, Num, is_above}
use wop.Platform.{Platform}
use wop.Workflow.{is_final_type}
use wop.Memory.Run.{RunEvent, Connection, on_event}
use wop.Memory.Cursor.{is_above_mono}
use wop.Sqlite.Rows.{EventRow, data_text}

module _ (p : Platform) where
  -- The row in which `appendEvent` keeps an event.
  abbrev pub row_of : RunEvent → EventRow
  row_of e = record {
    run_id = e.run_id;
    seq = e.seq;
    type = e.type;
    node_id = e.node_id;
    data_json = data_text p e.payload;
    timestamp = e.timestamp;
  }

  abbrev pub rows_above : Num → List EventRow → List EventRow
  rows_above n = filter (λ (e : EventRow). is_above e.seq n)

  -- A connection to a run with these events whose execution here is over or not: if the client has not
  -- closed it, it was sent the events above its resume point, which lies in the log, and it listens
  -- until it has ended.
  pub record Served (over : Bool) (es : List EventRow) (c : Connection) : Type 0 where
    pub reached : is_above (length es) c.resume_after_seq ≡ true
    pub sent : c.closed ≡ false → map row_of c.written ≡ rows_above c.resume_after_seq es
    pub listens : c.closed ≡ false → c.listening ≡ not over
    pub ended : c.closed ≡ false → c.ended ≡ over

  -- What is read of the data of a row is written as the same text.
  abbrev pub ReadsBack : EventRow → Type 0
  ReadsBack e =
      (text : String) (v : Json)
      → e.data_json ≡ some text
      → p.json_parse text ≡ some v
      → p.json_stringify v ≡ text

  abbrev pub Ok : Bool → List EventRow → List Connection → Type 0
  Ok over es cs = All ReadsBack es × All (Served over es) cs

  abbrev pub Stable : Type 0
  Stable =
      (v w : Json)
      → p.json_parse (p.json_stringify v) ≡ some w
      → p.json_stringify w ≡ p.json_stringify v

  closed-on_event : (e : RunEvent) (c : Connection) → (on_event e c).closed ≡ c.closed
  unfolding on_event
  closed-on_event e c = ground arith

  resume-on_event :
      (e : RunEvent) (c : Connection) → (on_event e c).resume_after_seq ≡ c.resume_after_seq
  unfolding on_event
  resume-on_event e c = ground arith

  length-snoc : (es : List EventRow) (r : EventRow) → length (es ++ r ∷ []) ≡ length es + 1
  length-snoc [] r = omega arith
  length-snoc (e ∷ es) r = omega (arith, length-snoc es r)

  rows_above-snoc :
      (n : Num) (es : List EventRow) (r : EventRow)
      → is_above r.seq n ≡ true
      → rows_above n (es ++ r ∷ []) ≡ rows_above n es ++ r ∷ []
  rows_above-snoc n es r a = filter-append _ es (r ∷ []) ∙ rw a refl

  Served-on_event :
      (es : List EventRow) (e : RunEvent) (c : Connection)
      → e.seq ≡ length es
      → Served false es c
      → Served (is_final_type e.type) (es ++ row_of e ∷ []) (on_event e c)
  unfolding on_event
  Served-on_event es e c at s =
      let known = closed-on_event e c in
      let same = resume-on_event e c in
      let longer : length (es ++ row_of e ∷ []) ≡ length es + 1 = length-snoc es (row_of e) in
      let higher =
        is_above_mono c.resume_after_seq (length es) (length (es ++ row_of e ∷ []))
          (omega (arith, longer)) s.reached in
      let here : is_above e.seq c.resume_after_seq ≡ true = rw at s.reached in
      let more = rows_above-snoc c.resume_after_seq es (row_of e) here in
      record {
        reached = rw same higher;
        sent = λ o.
            let still : c.closed ≡ false = sym known ∙ o in
            let on : c.listening ≡ true = s.listens still in
            rw on (map-append row_of c.written (e ∷ []) ∙ rw (s.sent still) (sym more));
        listens = λ o. let on : c.listening ≡ true = s.listens (sym known ∙ o) in rw on refl;
        ended = λ o.
            let still : c.closed ≡ false = sym known ∙ o in
            let on : c.listening ≡ true = s.listens still in rw (on, s.ended still) refl;
      }

  pub Served-all :
      (es : List EventRow) (e : RunEvent) (cs : List Connection)
      → e.seq ≡ length es
      → All (Served false es) cs
      → All (Served (is_final_type e.type) (es ++ row_of e ∷ [])) (map (on_event e) cs)
  Served-all es e [] at h = tt
  Served-all es e (c ∷ cs) at (s, h) = (Served-on_event es e c at s, Served-all es e cs at h)

  -- The new row reads back, since its data was written by `JSON.stringify`.
  pub row_of-ReadsBack : (e : RunEvent) → Stable → ReadsBack (row_of e)
  row_of-ReadsBack e stable = go e.payload
    where
      go :
          (o : Option Json) (text : String) (v : Json)
          → data_text p o ≡ some text
          → p.json_parse text ≡ some v
          → p.json_stringify v ≡ text
      go none text v w r = cc
      go (some d) text v w r =
          let same : p.json_stringify d ≡ text = cc in stable d v (rw same r) ∙ same
