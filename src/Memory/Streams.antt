-- ===== src/Memory/Streams.antt =====
-- What an SSE client of the in-memory host is sent (`handleEventsSse`, `appendEvent` of
-- examples/hosts/in-memory/src/server.ts).
use wop.Prelude.{
  ◌≡◌, sym, ap, subst, ◌∙◌, true, false, List, ◌∷◌, ◌++◌, length, All, All-at, filter-append, arith,
}
use wop.Json.{Num, is_above}
use wop.Platform.{Platform}
use wop.Workflow.{is_terminal, RunStatus}
use wop.Memory.Run.{RunEvent, Connection, Live}
use wop.Memory.Log.{IsNumbered, Follows, is_closed}
use wop.Memory.Invariant.{Inv, closing}
use wop.Memory.Cursor.{above, above_all, IsNumbered-right}

is_closed-closing : (s : RunStatus) → is_closed (closing s) ≡ is_terminal s
is_closed-closing s = ground arith

-- All that follows the backlog has a number above the resume point, if that lies in the backlog.
above-tail :
    (x : Num) (backlog tail es : List RunEvent)
    → es ≡ backlog ++ tail
    → IsNumbered 0 es
    → is_above (length backlog) x ≡ true
    → above x es ≡ above x backlog ++ tail
above-tail x backlog tail es split h a =
    ap (above x) split
    ∙ filter-append _ backlog tail
    ∙ ap (λ (l : List RunEvent). above x backlog ++ l)
        (above_all x (length backlog) tail a (
          IsNumbered-right 0 (length backlog) backlog tail (omega arith)
            (subst (IsNumbered 0) split h)))

-- In a run that meets the invariant, a connection that the client has not closed, resumed after an
-- event of the log that it found (or after none), was sent exactly the events above its resume point, each once and in order, and its
-- response has ended exactly when the run has.
pub connection-sent :
    (p : Platform) (l : Live) (cs ds : List Connection) (c : Connection)
    → Inv p l
    → l.connections ≡ cs ++ c ∷ ds
    → c.closed ≡ false
    → is_above (length c.backlog) c.resume_after_seq ≡ true
    → (c.written ≡ above c.resume_after_seq l.run.events) × (c.ended ≡ is_terminal l.run.status)
connection-sent p l cs ds c inv at still resumed =
    let f : Follows (closing l.run.status) l.run.events c =
      All-at _ cs ds c (subst (All _) at inv.log.followed) in
    let (tail, split, written) = f.sent still in
    (
      written
          ∙ sym (
              above-tail c.resume_after_seq c.backlog tail l.run.events split inv.log.numbered
                resumed),
      f.ended still ∙ is_closed-closing l.run.status,
    )
