-- ===== src/Sqlite/Backlog.antt =====
-- What the client of an event stream has when the stream opens and when it closes (the backlog of
-- `handleEventsSse` of examples/hosts/sqlite/src/server.ts).
use wop.Prelude.{
  ℕ, zero, suc, String, ◌≡◌, refl, sym, ap, ◌∙◌, Bool, true, false, Option, none, some, List, [],
  ◌∷◌, map, length, All, All-filter, arith, if_cases, maybe,
}
use wop.Json.{Json, Num, is_above}
use wop.Platform.{Platform}
use wop.Workflow.{is_terminal}
use wop.Memory.Run.{RunEvent, Connection}
use wop.Memory.Turns.{close_at, close}
use wop.Sqlite.Rows.{EventRow, data_text}
use wop.Sqlite.Engine.{Process, is_finished, Execution}
use wop.Sqlite.Reads.{Parsed, parsed, raised, then_parse, parse, get_events_after}
use wop.Sqlite.Connections.{replayed_event, listening_after, payload_of, backlog_events, opened}
use wop.Sqlite.Live.{Served, ReadsBack, row_of, rows_above}

then_parse-parsed {ℓ κ} :
    {A : Type ℓ} {B : Type κ} (m : Parsed A) (f : A → Parsed B) (b : B)
    → then_parse m f ≡ parsed b
    → (a : A) × (m ≡ parsed a) × (f a ≡ parsed b)
then_parse-parsed (parsed a) f b h = (a, refl, h)
then_parse-parsed (raised m) f b h = cc

abbrev value_or {ℓ} : {A : Type ℓ} → A → Parsed A → A
value_or a (parsed b) = b
value_or a (raised m) = a

module _ (p : Platform) (me : Process) where
  parse-some : (text : String) (v : Json) → parse p me text ≡ parsed v → p.json_parse text ≡ some v
  parse-some text v h = ground (arith, h)

  payload-text :
      (o : Option String) (payload : Option Json)
      → ((text : String) (v : Json)
          → o ≡ some text
          → p.json_parse text ≡ some v
          → p.json_stringify v ≡ text)
      → maybe o (parsed none) (λ text. then_parse (parse p me text) (λ v. parsed (some v)))
        ≡ parsed payload
      → data_text p payload ≡ o
  payload-text none payload back h = ap (data_text p) (sym (ap (value_or payload) h))
  payload-text (some text) payload back h =
      let (v, read, whole) =
        then_parse-parsed (parse p me text) (λ (v : Json). parsed (some v)) payload h in
      let found : p.json_parse text ≡ some v = parse-some text v read in
      ap (data_text p) (sym (ap (value_or payload) whole)) ∙ ap some (back text v refl found)

  row_of-replayed :
      (e : EventRow) (payload : Option Json)
      → ReadsBack p e
      → payload_of p me e ≡ parsed payload
      → row_of p (replayed_event e payload) ≡ e
  row_of-replayed e payload back h =
      ap (λ (d : Option String). record e { data_json = d })
        (payload-text e.data_json payload back h)

  rows_of-backlog :
      (es : List EventRow) (bs : List RunEvent)
      → All (ReadsBack p) es
      → backlog_events p me es ≡ parsed bs
      → map (row_of p) bs ≡ es
  rows_of-backlog [] bs back h = ap (map (row_of p)) (sym (ap (value_or bs) h))
  rows_of-backlog (e ∷ es) bs (back, backs) h =
      let (payload, read, more) = then_parse-parsed (payload_of p me e) _ bs h in
      let (later, reads, whole) = then_parse-parsed (backlog_events p me es) _ bs more in
      ap (map (row_of p)) (sym (ap (value_or bs) whole))
      ∙ ap (λ (r : EventRow). r ∷ map (row_of p) later) (row_of-replayed e payload back read)
      ∙ ap (λ (rs : List EventRow). e ∷ rs) (rows_of-backlog es later backs reads)

  Served-close :
      (over : Bool) (es : List EventRow) (c : Connection)
      → Served p over es c
      → Served p over es (close c)
  Served-close over es c s = record {
    reached = s.reached;
    sent = λ o. cc;
    listens = λ o. cc;
    ended = λ o. cc;
  }

  pub Served-close_at :
      (over : Bool) (es : List EventRow) (i : ℕ) (cs : List Connection)
      → All (Served p over es) cs
      → All (Served p over es) (close_at i cs)
  unfolding close_at
  Served-close_at over es i [] h = tt
  Served-close_at over es zero (c ∷ cs) (s, h) = (Served-close over es c s, h)
  Served-close_at over es (suc i) (c ∷ cs) (s, h) = (s, Served-close_at over es i cs h)

  -- A connection that opens is sent the backlog, and listens.
  pub opened-Served :
      (n : Num) (x : Execution)
      → is_finished x.task ≡ is_terminal x.row.status
      → is_above (length x.row.events) n ≡ true
      → All (ReadsBack p) x.row.events
      → All (Served p (is_finished x.task) x.row.events) (opened p me n x.row)
  unfolding opened get_events_after
  opened-Served n x done found back =
      if_cases (All (Served p (is_finished x.task) x.row.events)) (is_terminal x.row.status) _ _
        (λ over. tt)
        (λ going. go (backlog_events p me (rows_above p n x.row.events)) refl (done ∙ going))
    where
      go :
          (m : Parsed (List RunEvent))
          → backlog_events p me (rows_above p n x.row.events) ≡ m
          → is_finished x.task ≡ false
          → All
              (Served p (is_finished x.task) x.row.events)
              (elim m [ parsed es ↦ listening_after n es ∷ [] | raised message ↦ [] ])
      go (raised message) e going = tt
      go (parsed es) e going = (
        record {
          reached = found;
          sent = λ o.
              rows_of-backlog (rows_above p n x.row.events) es (All-filter (ReadsBack p) _ _ back)
                e;
          listens = λ o. rw going refl;
          ended = λ o. sym going;
        },
        tt,
      )
