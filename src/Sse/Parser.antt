-- ===== src/Sse/Parser.antt =====
-- The line parser in the read loops of `subscribe` (conformance/src/lib/sse.ts) and `streamEvents`
-- (sdk/typescript/src/sse.ts). A text is the list of its characters, by their numbers. The two loops
-- differ in what they make of a complete event, which is the parameter `emit`.
use wop.Prelude.{
  ℕ, zero, suc, ◌+◌, Bool, true, false, ◌&&◌, Option, none, some, List, [], ◌∷◌, ◌++◌, length, eqb,
  if◌then◌else◌, maybe, String,
}
use Prim.Native.Char.{code}

abbrev pub Text : Type 0
Text = List ℕ

abbrev pub codes : String → Text
codes String.[] = []
codes (String.◌∷◌ c s) = code c ∷ codes s

-- `a === b`
abbrev pub same : Text → Text → Bool
same [] [] = true
same (a ∷ s) (b ∷ t) = eqb a b && same s t
same _ _ = false

-- What stands before and behind the first such character: `indexOf` with the two `slice`s.
unfoldable pub cut : ℕ → Text → Option (Text × Text)
cut sep [] = none
cut sep (c ∷ s) =
    let later = cut sep s in
    if eqb c sep then some ([], s) else maybe later none (λ r. some (c ∷ r.0, r.1))

-- `line.replace(/\r$/, '')`
unfoldable pub drop_cr : Text → Text
drop_cr [] = []
drop_cr (c ∷ []) = if eqb c 13 then [] else c ∷ []
drop_cr (c ∷ d ∷ s) = c ∷ drop_cr (d ∷ s)

-- `valueRaw.startsWith(' ') ? valueRaw.slice(1) : valueRaw`
abbrev pub drop_space : Text → Text
drop_space [] = []
drop_space (c ∷ s) = if eqb c b' ' then s else c ∷ s

-- `lines.join('\n')`
abbrev pub join_lines : List Text → Text
join_lines [] = []
join_lines (l ∷ []) = l
join_lines (l ∷ m ∷ ls) = l ++ 10 ∷ join_lines (m ∷ ls)

abbrev pub starts_comment : Text → Bool
starts_comment [] = false
starts_comment (c ∷ s) = eqb c b':'

abbrev pub is_empty {ℓ} : {A : Type ℓ} → List A → Bool
is_empty [] = true
is_empty _ = false

-- `pendingEvent`, `pendingData`, `pendingId`, and what was emitted so far.
pub record Pending {ℓ} (A : Type ℓ) : Type ℓ where
  pub event : Text
  pub lines : List Text
  pub id : Option Text
  pub emitted : List A

abbrev pub message : Text
message = codes "message"

abbrev pub initial {ℓ} : {A : Type ℓ} → Pending A
initial = record { event = message; lines = []; id = none; emitted = [] }

module _ {ℓ} {A : Type ℓ} (emit : Text → Text → Option Text → List A) where
  -- `flushEvent`
  unfoldable pub flush : Pending A → Pending A
  flush s = if is_empty s.lines then record s { event = message; id = none } else record s {
    event = message;
    lines = [];
    id = none;
    emitted = s.emitted ++ emit s.event (join_lines s.lines) s.id;
  }

  -- The switch on the name of the field.
  unfoldable pub set_field : Text → Text → Pending A → Pending A
  set_field field value s =
      if same field (codes "event")
      then record s { event = value }
      else if same field (codes "data")
      then record s { lines = s.lines ++ value ∷ [] }
      else if same field (codes "id")
      then record s { id = some value }
      else s

  -- One line without its `\r`.
  unfoldable pub on_line : Text → Pending A → Pending A
  unfolding flush set_field cut
  on_line line s =
      if is_empty line
      then flush s
      else if starts_comment line
      then s
      else maybe (cut b':' line) (set_field line [] s) (λ r. set_field r.0 (drop_space r.1) s)

  -- The loop over the lines of the buffer; a round takes one character of it at least.
  unfoldable pub drain : ℕ → Text → Pending A → Text × Pending A
  unfolding on_line drop_cr
  drain zero buffer s = (buffer, s)
  drain (suc fuel) buffer s =
      maybe (cut 10 buffer) (buffer, s) (λ r. drain fuel r.1 (on_line (drop_cr r.0) s))

  -- One chunk: `buffer += …` and that loop.
  unfoldable pub feed : Text → Text × Pending A → Text × Pending A
  unfolding drain
  feed chunk (buffer, s) = drain (length buffer + length chunk) (buffer ++ chunk) s

  unfoldable pub feed_all : List Text → Text × Pending A → Text × Pending A
  feed_all [] s = s
  feed_all (c ∷ cs) s = feed_all cs (feed c s)

  -- The whole stream, with the flush at its end; what follows the last `\n` is dropped.
  unfoldable pub parse : List Text → List A
  unfolding feed_all feed flush
  parse chunks = (flush (feed_all chunks ([], initial)).1).emitted
