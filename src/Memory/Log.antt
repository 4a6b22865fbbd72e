-- ===== src/Memory/Log.antt =====
-- The event log of a run and the connections that follow it: what `append_event` keeps.
use wop.Prelude.{
  ℕ, zero, suc, ◌+◌, String, ◌≡◌, refl, sym, ap, ◌∙◌, Bool, true, false, not, ◌&&◌, Option, none,
  some, List, [], ◌∷◌, ◌++◌, map, append-nil, append_assoc, length, filter, any, All, All-append,
  arith, if◌then◌else◌, Bool-cases, inl, inr,
}
use wop.Json.{Json, Num, is_above}
use wop.Platform.{Platform}
use wop.Workflow.{EventType, is_final_type, is_terminal}
use wop.Memory.Run.{RunEvent, Connection, Live, on_event, new_event, append_event}
use wop.Memory.Turns.{open_connection, close_at}

-- The events carry the numbers from `n` on.
abbrev pub IsNumbered : ℕ → List RunEvent → Type 0
IsNumbered n [] = Unit
IsNumbered n (e ∷ es) = (e.seq ≡ n) × IsNumbered (suc n) es

pub IsNumbered-append :
    (n : ℕ) (es : List RunEvent) (e : RunEvent)
    → IsNumbered n es
    → e.seq ≡ n + length es
    → IsNumbered n (es ++ e ∷ [])
IsNumbered-append n [] e h q = (omega (arith, q), tt)
IsNumbered-append n (x ∷ es) e (h, hs) q = (h, IsNumbered-append (suc n) es e hs (omega (arith, q)))

abbrev is_final : RunEvent → Bool
is_final e = is_final_type e.type

any-append :
    (es : List RunEvent) (e : RunEvent)
    → any is_final es ≡ false
    → any is_final (es ++ e ∷ []) ≡ is_final e
any-append [] e h = ground arith
any-append (x ∷ es) e h = ground (arith, any-append es e)

-- A log that is open holds no terminal event; a closed one holds one, of that type, at its end.
abbrev pub IsClosedBy : Option EventType → List RunEvent → Type 0
IsClosedBy none es = any is_final es ≡ false
IsClosedBy (some t) es =
    (before : List RunEvent) × (last : RunEvent) × (es ≡ before ++ last ∷ [])
    × (any is_final before ≡ false)
    × (last.type ≡ t)

abbrev pub is_closed : Option EventType → Bool
is_closed none = false
is_closed (some t) = true

abbrev above : Num → List RunEvent → List RunEvent
above x = filter (λ (e : RunEvent). is_above e.seq x)

-- What was written: of the log at the connection the events after the resume point, and then all
-- that was appended since.
abbrev pub Sent : List RunEvent → Connection → Type 0
Sent es c =
    (tail : List RunEvent) × (es ≡ c.backlog ++ tail)
    × (c.written ≡ above c.resume_after_seq c.backlog ++ tail)

pub record Follows (closed : Option EventType) (es : List RunEvent) (c : Connection) : Type 0 where
  pub listens : c.listening ≡ (not (is_closed closed) && not c.closed)
  pub ended : c.closed ≡ false → c.ended ≡ is_closed closed
  pub sent : c.closed ≡ false → Sent es c

pub record LogInv (closed : Option EventType) (run_id : String) (es : List RunEvent)
    (cs : List Connection) : Type 0 where
  pub numbered : IsNumbered 0 es
  pub owned : All (λ (e : RunEvent). e.run_id ≡ run_id) es
  pub closed_by : IsClosedBy closed es
  pub followed : All (Follows closed es) cs

-- the state of the log after an event of this type
abbrev pub after : EventType → Option EventType
after t = if is_final_type t then some t else none

on_event-Sent :
    (es : List RunEvent) (e : RunEvent) (c : Connection)
    → c.listening ≡ true
    → Sent es c
    → Sent (es ++ e ∷ []) (on_event e c)
unfolding on_event
on_event-Sent es e c on (tail, split, written) =
    let grown : es ++ e ∷ [] ≡ c.backlog ++ (tail ++ e ∷ []) =
      ap (λ (l : List RunEvent). l ++ e ∷ []) split ∙ append_assoc c.backlog tail (e ∷ []) in
    let sent : c.written ++ e ∷ [] ≡ above c.resume_after_seq c.backlog ++ (tail ++ e ∷ []) =
      ap (λ (l : List RunEvent). l ++ e ∷ []) written
      ∙ append_assoc (above c.resume_after_seq c.backlog) tail (e ∷ []) in
    rw on (tail ++ e ∷ [], grown, sent)

closed-on_event : (e : RunEvent) (c : Connection) → (on_event e c).closed ≡ c.closed
unfolding on_event
closed-on_event e c = ground arith

-- A connection follows one more event of an open log.
on_event-Follows :
    (es : List RunEvent) (e : RunEvent) (c : Connection)
    → Follows none es c
    → Follows (after e.type) (es ++ e ∷ []) (on_event e c)
unfolding on_event
on_event-Follows es e c h = record {
  listens = ground arith;
  ended = λ open_end. ground (arith, h.ended (ground arith));
  sent = λ open_end.
      let still : c.closed ≡ false = sym (closed-on_event e c) ∙ open_end in
      on_event-Sent es e c (ground arith) (h.sent still);
}

map-Follows :
    (es : List RunEvent) (e : RunEvent) (cs : List Connection)
    → All (Follows none es) cs
    → All (Follows (after e.type) (es ++ e ∷ [])) (map (on_event e) cs)
map-Follows es e [] h = tt
map-Follows es e (c ∷ cs) (h, hs) = (on_event-Follows es e c h, map-Follows es e cs hs)

IsClosedBy-append :
    (es : List RunEvent) (e : RunEvent)
    → IsClosedBy none es
    → IsClosedBy (after e.type) (es ++ e ∷ [])
IsClosedBy-append es e h = elim (Bool-cases (is_final e)) [
  | inl final ↦ rw final (es, e, refl, h, refl)
  | inr other ↦ rw other (any-append es e h ∙ other)
]

-- The run with one event more.
pub append_event-LogInv :
    (p : Platform) (t : EventType) (n : Option String) (d : Option Json) (l : Live)
    → LogInv none l.run.run_id l.run.events l.connections
    → let m = append_event p t n d l in LogInv (after t) m.run.run_id m.run.events m.connections
unfolding append_event new_event
append_event-LogInv p t n d l h =
    let e : RunEvent = new_event p l.run t n d in
    record {
      numbered = IsNumbered-append 0 l.run.events e h.numbered (omega arith);
      owned = All-append _ l.run.events (e ∷ []) h.owned (refl, tt);
      closed_by = IsClosedBy-append l.run.events e h.closed_by;
      followed = map-Follows l.run.events e l.connections h.followed;
    }

-- An event that ends no run leaves the log open.
pub append_event-LogInv_open :
    (p : Platform) (t : EventType) (n : Option String) (d : Option Json) (l : Live)
    → is_final_type t ≡ false
    → LogInv none l.run.run_id l.run.events l.connections
    → let m = append_event p t n d l in LogInv none m.run.run_id m.run.events m.connections
append_event-LogInv_open p t n d l e h = rw e at (append_event-LogInv p t n d l h)

-- A new connection follows the log from its backlog on.
pub open_connection-Follows :
    (x : Num) (l : Live) (closed : Option EventType)
    → is_closed closed ≡ is_terminal l.run.status
    → Follows closed l.run.events (open_connection x l)
unfolding open_connection
open_connection-Follows x l closed h = record {
  listens = ground arith;
  ended = λ _. sym h;
  sent = λ _. ([], sym (append-nil _), sym (append-nil _));
}

-- A connection that the client closes hears nothing more.
pub close_at-Follows :
    (i : ℕ) (closed : Option EventType) (es : List RunEvent) (cs : List Connection)
    → All (Follows closed es) cs
    → All (Follows closed es) (close_at i cs)
unfolding close_at
close_at-Follows i closed es [] h = tt
close_at-Follows zero closed es (c ∷ cs) (h, hs) =
    (record { listens = ground arith; ended = λ e. cc; sent = λ e. absurd (cc e) }, hs)
close_at-Follows (suc i) closed es (c ∷ cs) (h, hs) = (h, close_at-Follows i closed es cs hs)
