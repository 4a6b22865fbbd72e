-- ===== src/Platform.antt =====
-- What the hosts take from Node: JSON, hashing, numbers from text and the wall clock. The code of
-- these functions is not in the repository, so they are the fields of a record that the definitions
-- take as a parameter; a theorem that relies on one of their documented laws has it as a hypothesis.
use wop.Prelude.{ℕ, String, Option}
use wop.Json.{Json, Num}

pub record Platform : Type 0 where
  -- `JSON.parse`, `none` where it throws
  pub json_parse : String → Option Json
  -- `JSON.stringify`
  pub json_stringify : Json → String
  -- `Buffer.byteLength(text)`, written in decimal as an HTTP header
  pub content_length : String → String
  -- `createHash('sha256').update(text).digest('hex')`
  pub sha256 : String → String
  -- `Number(text)`
  pub number : String → Num
  -- `${n}` of a natural number
  pub decimal : ℕ → String
  -- `text.trim()`
  pub trim : String → String
  -- a property read whose receiver or key is not that of an ordinary object read, `value[key]`
  pub exotic_property : Json → Json → Option Json
  -- the message of the TypeError that reading a property of `null` throws
  pub null_read : String → String
  -- what `new Date().toISOString()` gives when the event of a run with this number is appended;
  -- both hosts have this one clock
  pub event_time : String → ℕ → String
  -- and when the run of this id ends
  pub ended_time : String → String
