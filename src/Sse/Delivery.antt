-- ===== src/Sse/Delivery.antt =====
-- What the two readers receive of the stream that the in-memory host sends.
use Prim.Native.String
use Prim.Native.Char.{code}
use text.Mathlib.TextLemmas.{nil-append, cons-append}
use wop.Prelude.{
  String, ◌≡◌, refl, ap, ◌∙◌, true, false, Option, none, some, List, [], ◌∷◌, ◌++◌, map, length,
  All, All-filter,
}
use wop.Json.{Json, is_above}
use wop.Platform.{Platform}
use wop.Workflow.{
  type_text, is_terminal, EventType, run_started, run_resumed, run_completed, run_failed,
  run_cancelled, node_started, node_completed, node_failed, node_cancelled,
}
use wop.Memory.Run.{RunEvent, Connection, Live}
use wop.Memory.Invariant.{Inv}
use wop.Memory.Reads.{write_event, event_json}
use wop.Memory.Cursor.{above}
use wop.Memory.Streams.{connection-sent}
use wop.Sse.Parser.{Text, codes}
use wop.Sse.Chunks.{concat}
use wop.Sse.Frames.{
  Frame, frame, stream, deliveries, IsValue, IsFrame, parse-stream, is_plain, is_plain-IsValue,
}
use wop.Sse.Clients.{
  answered, done, SseEvent, returned, server, collected, read_body, yield_body, subscribe,
  push_event, stream_events, yield_event,
}

pub codes-append : (s t : String) → codes (String.◌++◌ s t) ≡ codes s ++ codes t
codes-append String.[] t = rw nil-append refl
codes-append (String.◌∷◌ c s) t = rw cons-append (ap (λ (r : Text). code c ∷ r) (codes-append s t))

pub type_text-plain : (t : EventType) → is_plain (codes (type_text t)) ≡ true
type_text-plain run_started = refl
type_text-plain run_resumed = refl
type_text-plain run_completed = refl
type_text-plain run_failed = refl
type_text-plain run_cancelled = refl
type_text-plain node_started = refl
type_text-plain node_completed = refl
type_text-plain node_failed = refl
type_text-plain node_cancelled = refl

module _ (p : Platform) where
  unfoldable pub frame_of : RunEvent → Frame
  frame_of e = record {
    id = codes (p.decimal e.seq);
    event = codes (type_text e.type);
    payload = codes (p.json_stringify (event_json e));
  }

  codes-write_event : (e : RunEvent) → codes (write_event p e) ≡ frame (frame_of e)
  unfolding write_event frame_of
  codes-write_event e = simp codes-append

  -- The characters of the events that were written to a response, in order.
  abbrev pub sent : List RunEvent → Text
  sent es = concat (map (λ (e : RunEvent). codes (write_event p e)) es)

  sent-stream : (es : List RunEvent) → sent es ≡ stream (map frame_of es)
  sent-stream [] = refl
  sent-stream (e ∷ es) = rw (codes-write_event e) (rw (sent-stream es) refl)

  -- What the host relies on to write an event: its number and its JSON text are one line each, and
  -- end in no carriage return.
  pub record IsWritable (e : RunEvent) : Type 0 where
    pub id : IsValue (codes (p.decimal e.seq))
    pub payload : IsValue (codes (p.json_stringify (event_json e)))

  frames : (es : List RunEvent) → All IsWritable es → All IsFrame (map frame_of es)
  unfolding frame_of
  frames [] h = tt
  frames (e ∷ es) (h, hs) = (
    record { id = h.id; event = is_plain-IsValue _ (type_text-plain e.type); payload = h.payload },
    frames es hs,
  )

  -- The event as the suite's reader shows it.
  unfoldable pub shown : RunEvent → SseEvent
  shown e = record {
    event = codes (type_text e.type);
    payload = codes (p.json_stringify (event_json e));
    id = some (codes (p.decimal e.seq));
  }

  deliveries-push_event :
      (es : List RunEvent) → deliveries push_event (map frame_of es) ≡ map shown es
  unfolding push_event frame_of shown
  deliveries-push_event [] = refl
  deliveries-push_event (e ∷ es) =
      ap (λ (l : List SseEvent). shown e ∷ l) (deliveries-push_event es)

  -- The suite's reader returns the events that the host wrote to a response on one line each, each
  -- once and in order, with their numbers as ids, however the network cut the response into chunks.
  pub subscribe-sent :
      (es : List RunEvent) (chunks : List Text)
      → All IsWritable es
      → concat chunks ≡ sent es
      → subscribe (answered 200 (some (chunks, done)))
        ≡ returned (record { events = map shown es; status = 200; closed_by = server })
  unfolding subscribe read_body collected
  subscribe-sent es chunks h e =
      ap (λ (l : List SseEvent). returned (record { events = l; status = 200; closed_by = server }))
        (parse-stream push_event chunks (map frame_of es) (e ∙ sent-stream es) (frames es h)
          ∙ deliveries-push_event es)

  module _ (json : Text → Option Json) where
    -- `JSON.parse` gives back the event whose text the host wrote.
    abbrev pub IsReadable : RunEvent → Type 0
    IsReadable e = json (codes (p.json_stringify (event_json e))) ≡ some (event_json e)

    yield_event-one :
        (e : RunEvent) (id : Option Text)
        → IsReadable e
        → yield_event p json (codes (type_text e.type)) (codes (p.json_stringify (event_json e))) id
          ≡ event_json e ∷ []
    unfolding yield_event event_json
    yield_event-one e id h = rw h refl

    deliveries-yield_event :
        (es : List RunEvent)
        → All IsReadable es
        → deliveries (yield_event p json) (map frame_of es) ≡ map event_json es
    unfolding frame_of
    deliveries-yield_event [] h = refl
    deliveries-yield_event (e ∷ es) (h, hs) =
        rw (yield_event-one e (some (codes (p.decimal e.seq))) h)
          (rw (deliveries-yield_event es hs) refl)

    -- The SDK's reader yields the events that the host wrote to a response on one line each and that
    -- `JSON.parse` reads back, each once and in order, and throws nothing, however the network cut
    -- the response into chunks.
    pub stream_events-sent :
        (es : List RunEvent) (chunks : List Text)
        → All IsWritable es
        → All IsReadable es
        → concat chunks ≡ sent es
        → stream_events p json (answered 200 (some (chunks, done)))
          ≡ record { events = map event_json es; error = none }
    unfolding stream_events yield_body
    stream_events-sent es chunks h r e =
        ap (λ (l : List Json). record { events = l; error = none })
          (parse-stream (yield_event p json) chunks (map frame_of es) (e ∙ sent-stream es)
              (frames es h)
            ∙ deliveries-yield_event es r)

    -- From end to end: when a run that meets the invariant has ended, the SDK's reader of a response
    -- that the client kept open, resumed after an event that the host found (or after none), has
    -- yielded the events of the run's log above the resume point, each once and in order, and the
    -- response has ended; provided that the host writes the events of the log on one line each and
    -- `JSON.parse` reads them back.
    pub stream_events-connection :
        (l : Live) (cs ds : List Connection) (c : Connection) (chunks : List Text)
        → Inv p l
        → is_terminal l.run.status ≡ true
        → l.connections ≡ cs ++ c ∷ ds
        → c.closed ≡ false
        → is_above (length c.backlog) c.resume_after_seq ≡ true
        → All IsWritable l.run.events
        → All IsReadable l.run.events
        → concat chunks ≡ sent c.written
        → (stream_events p json (answered 200 (some (chunks, done))) ≡ record {
          events = map event_json (above c.resume_after_seq l.run.events);
          error = none;
        })
          × (c.ended ≡ true)
    stream_events-connection l cs ds c chunks inv over at still resumed w r e =
        let (written, ended) = connection-sent p l cs ds c inv at still resumed in
        let es : List RunEvent = above c.resume_after_seq l.run.events in
        (
          stream_events-sent es chunks (All-filter _ _ l.run.events w)
              (All-filter _ _ l.run.events r) (e ∙ ap sent written),
          ended ∙ over,
        )
