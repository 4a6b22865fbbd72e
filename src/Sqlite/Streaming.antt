-- ===== src/Sqlite/Streaming.antt =====
-- What a reader gets of the event stream of an ended run of the SQLite host: `handleEventsSse` of
-- examples/hosts/sqlite/src/server.ts with `streamEvents` of sdk/typescript/src/sse.ts.
use wop.Prelude.{
  String, ◌≡◌, refl, ap, ◌∙◌, true, false, Option, none, some, List, [], ◌∷◌, map, lookup, All,
  All-filter,
}
use wop.Json.{Json, null}
use wop.Platform.{Platform}
use wop.Http.{Request, check_auth}
use wop.Workflow.{is_terminal, type_text}
use wop.Memory.Router.{resume_after}
use wop.Sse.Parser.{Text, codes}
use wop.Sse.Chunks.{concat}
use wop.Sse.Frames.{
  Frame, frame, stream, deliveries, IsValue, IsFrame, parse-stream, is_plain-IsValue,
}
use wop.Sse.Clients.{answered, done, yield_body, stream_events, yield_event}
use wop.Sse.Delivery.{codes-append, type_text-plain}
use wop.Sqlite.Rows.{EventRow}
use wop.Sqlite.Engine.{Process, Execution}
use wop.Sqlite.Host
use wop.Sqlite.Reads.{
  parsed, raised, data_of, event_value, write_event, write_row, write_backlog, get_events_after,
}
use wop.Sqlite.Router.{handle_events_sse}

module _ (p : Platform) (me : Process) (json : Text → Option Json) where
  -- The value of `data_json`, where it reads.
  abbrev pub datum : EventRow → Json
  datum e = elim (data_of p me e) [ parsed v ↦ v | raised m ↦ null ]

  -- The event as a reader sees it, and the text in which it is sent.
  abbrev pub shown : EventRow → Json
  shown e = event_value p me e (datum e)

  abbrev pub text_of : EventRow → String
  text_of e = write_event p me e (datum e)

  -- What the stream of a row relies on: its data reads, its number and its JSON text are one line each
  -- and end in no carriage return, and `JSON.parse` reads the text back.
  pub record IsSent (e : EventRow) : Type 0 where
    pub reads : data_of p me e ≡ parsed (datum e)
    pub id : IsValue (codes (p.decimal e.seq))
    pub payload : IsValue (codes (p.json_stringify (shown e)))
    pub back : json (codes (p.json_stringify (shown e))) ≡ some (shown e)

  write_backlog-IsSent :
      (es : List EventRow) → All IsSent es → write_backlog p me es ≡ (map text_of es, true)
  unfolding write_backlog
  write_backlog-IsSent [] h = refl
  write_backlog-IsSent (e ∷ es) (h, hs) =
      ap (λ d. write_row p me e d (write_backlog p me es)) h.reads
      ∙ ap (write_row p me e (parsed (datum e))) (write_backlog-IsSent es hs)

  unfoldable frame_of : EventRow → Frame
  frame_of e = record {
    id = codes (p.decimal e.seq);
    event = codes (type_text e.type);
    payload = codes (p.json_stringify (shown e));
  }

  codes-text_of : (e : EventRow) → codes (text_of e) ≡ frame (frame_of e)
  unfolding write_event frame_of
  codes-text_of e = simp codes-append

  sent-stream :
      (es : List EventRow) → concat (map codes (map text_of es)) ≡ stream (map frame_of es)
  sent-stream [] = refl
  sent-stream (e ∷ es) = rw (codes-text_of e) (rw (sent-stream es) refl)

  frames : (es : List EventRow) → All IsSent es → All IsFrame (map frame_of es)
  unfolding frame_of
  frames [] h = tt
  frames (e ∷ es) (h, hs) = (
    record { id = h.id; event = is_plain-IsValue _ (type_text-plain e.type); payload = h.payload },
    frames es hs,
  )

  yield_event-one :
      (e : EventRow) (id : Option Text)
      → IsSent e
      → yield_event p json (codes (type_text e.type)) (codes (p.json_stringify (shown e))) id
        ≡ shown e ∷ []
  unfolding yield_event
  yield_event-one e id h = rw h.back refl

  deliveries-yield_event :
      (es : List EventRow)
      → All IsSent es
      → deliveries (yield_event p json) (map frame_of es) ≡ map shown es
  unfolding frame_of
  deliveries-yield_event [] h = refl
  deliveries-yield_event (e ∷ es) (h, hs) =
      rw (yield_event-one e (some (codes (p.decimal e.seq))) h)
        (rw (deliveries-yield_event es hs) refl)

  stream_events-text_of :
      (es : List EventRow) (chunks : List Text)
      → All IsSent es
      → concat chunks ≡ concat (map codes (map text_of es))
      → stream_events p json (answered 200 (some (chunks, done)))
        ≡ record { events = map shown es; error = none }
  unfolding stream_events yield_body
  stream_events-text_of es chunks h e =
      ap (λ (l : List Json). record { events = l; error = none })
        (parse-stream (yield_event p json) chunks (map frame_of es) (e ∙ sent-stream es)
            (frames es h)
          ∙ deliveries-yield_event es h)

  -- The SQLite host answers an authorized request for the events of a run that has ended with the
  -- frames of the rows above the resume point, and ends the response; and the SDK's reader of those
  -- frames, however the network cuts them into chunks, yields these events, each once and in order,
  -- and throws nothing; provided that the host can read the data of each row, and writes it on one
  -- line that `JSON.parse` reads back.
  pub ended_stream :
      (req : Request) (id : String) (h : wop.Sqlite.Host.Host) (x : Execution) (chunks : List Text)
      → check_auth p h.api_key req ≡ none
      → lookup id h.runs ≡ some x
      → is_terminal x.row.status ≡ true
      → All IsSent x.row.events
      → let es = get_events_after (resume_after p req.last_event_id) x.row in
        concat chunks ≡ concat (map codes (map text_of es))
        → ((handle_events_sse p me req id h).1
            ≡ wop.Sqlite.Host.Reply.stream
                (("Content-Type", "text/event-stream")
                  ∷ ("Cache-Control", "no-cache")
                  ∷ ("Connection", "keep-alive")
                  ∷ [])
                (map text_of es)
                false)
          × (stream_events p json (answered 200 (some (chunks, done)))
              ≡ record { events = map shown es; error = none })
  unfolding handle_events_sse get_events_after
  ended_stream req id h x chunks passed found over sent cut =
      let readable = All-filter IsSent _ x.row.events sent in
      (
        rw (passed, found, over, write_backlog-IsSent _ readable) refl,
        stream_events-text_of _ chunks readable cut,
      )
