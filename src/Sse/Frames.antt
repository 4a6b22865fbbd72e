-- ===== src/Sse/Frames.antt =====
-- Events as the hosts write them to a stream (`writeEvent` of examples/hosts/in-memory/src/server.ts),
-- and what the parser of the two readers makes of them.
use wop.Prelude.{
  ℕ, subst, Bool, true, not, ◌&&◌, all, ◌≡◌, ◌≢◌, refl, sym, ap, ◌∙◌, Option, some, List, [], ◌∷◌,
  ◌++◌, append_assoc, append-nil, eqb, All, arith, if_cases,
}
use wop.Sse.Parser.{
  Text, codes, cut, drop_cr, Pending, initial, flush, set_field, on_line, feed_all, parse,
}
use wop.Sse.Chunks.{IsOneLine, consume, concat, feed_all-consume}

pub record Frame : Type 0 where
  pub id : Text
  pub event : Text
  pub payload : Text

-- A line, before what follows it.
abbrev line : Text → Text → Text → Text
line name value u = (name ++ value) ++ 10 ∷ u

-- `id: …`, `event: …`, `data: …` and a blank line, before what follows them.
abbrev frame_before : Frame → Text → Text
frame_before f u =
    line (codes "id: ") f.id
      (line (codes "event: ") f.event (line (codes "data: ") f.payload (10 ∷ u)))

abbrev pub frame : Frame → Text
frame f = frame_before f []

abbrev pub stream : List Frame → Text
stream [] = []
stream (f ∷ fs) = frame f ++ stream fs

-- A value that fills the rest of a line: the reader would strip a carriage return at its end.
pub record IsValue (t : Text) : Type 0 where
  pub one_line : IsOneLine t
  pub no_cr : drop_cr t ≡ t

pub record IsFrame (f : Frame) : Type 0 where
  pub id : IsValue f.id
  pub event : IsValue f.event
  pub payload : IsValue f.payload

drop_cr-cons : (c : ℕ) (t : Text) → c ≢ 13 → drop_cr (c ∷ t) ≡ c ∷ drop_cr t
unfolding drop_cr
drop_cr-cons c [] h = ground (arith, h)
drop_cr-cons c (d ∷ t) h = refl

-- No line feed and no carriage return.
abbrev pub is_plain : Text → Bool
is_plain = all (λ (c : ℕ). not (eqb c 10) && not (eqb c 13))

-- A value behind a plain text, such as the name of a field with its colon and its space.
plain-IsValue : (name t : Text) → is_plain name ≡ true → IsValue t → IsValue (name ++ t)
plain-IsValue [] t h v = v
plain-IsValue (c ∷ name) t h v =
    let rest = plain-IsValue name t (ground (arith, h)) v in
    record {
      one_line = (ground (arith, h), rest.one_line);
      no_cr = drop_cr-cons c (name ++ t) (ground (arith, h)) ∙ ap (λ (l : Text). c ∷ l) rest.no_cr;
    }

empty-IsValue : IsValue []
unfolding drop_cr
empty-IsValue = record { one_line = tt; no_cr = refl }

pub is_plain-IsValue : (t : Text) → is_plain t ≡ true → IsValue t
is_plain-IsValue t h = subst IsValue (append-nil t) (plain-IsValue t [] h empty-IsValue)

frame-append : (f : Frame) (u : Text) → frame f ++ u ≡ frame_before f u
frame-append f u = simp append_assoc

module _ {ℓ} {A : Type ℓ} (emit : Text → Text → Option Text → List A) where
  consume-line :
      (t u buffer : Text) (s : Pending A)
      → IsOneLine t
      → consume emit (t ++ 10 ∷ u) (buffer, s)
        ≡ consume emit u ([], on_line emit (drop_cr (buffer ++ t)) s)
  unfolding consume
  consume-line [] u buffer s h = rw (append-nil buffer) refl
  consume-line (c ∷ t) u buffer s (h, hs) =
      if_cases
        (λ (r : Text × Pending A).
          consume emit (t ++ 10 ∷ u) r
          ≡ consume emit u ([], on_line emit (drop_cr (buffer ++ c ∷ t)) s))
        (eqb c 10) _ _ (λ here. absurd (h (grind (arith, here))))
        (λ other.
          rw (sym (append_assoc buffer (c ∷ []) t)) (consume-line t u (buffer ++ c ∷ []) s hs))

  abbrev pub resting : List A → Pending A
  resting es = record initial { emitted = es }

  -- One line, without its end.
  take_line :
      (line u : Text) (s : Pending A)
      → IsValue line
      → consume emit (line ++ 10 ∷ u) ([], s) ≡ consume emit u ([], on_line emit line s)
  take_line line u s v =
      consume-line line u [] s v.one_line
      ∙ ap (λ (l : Text). consume emit u ([], on_line emit l s)) v.no_cr

  id_line :
      (t : Text) (s : Pending A) → on_line emit (codes "id: " ++ t) s ≡ record s { id = some t }
  unfolding on_line cut set_field
  id_line t s = refl

  event_line :
      (t : Text) (s : Pending A) → on_line emit (codes "event: " ++ t) s ≡ record s { event = t }
  unfolding on_line cut set_field
  event_line t s = refl

  data_line :
      (t : Text) (s : Pending A)
      → on_line emit (codes "data: " ++ t) s ≡ record s { lines = s.lines ++ t ∷ [] }
  unfolding on_line cut set_field
  data_line t s = refl

  blank_line :
      (f : Frame) (es : List A)
      → on_line emit []
          (record { event = f.event; lines = f.payload ∷ []; id = some f.id; emitted = es })
        ≡ resting (es ++ emit f.event f.payload (some f.id))
  unfolding on_line flush
  blank_line f es = refl

  blank :
      (u : Text) (s : Pending A)
      → consume emit (10 ∷ u) ([], s) ≡ consume emit u ([], on_line emit [] s)
  unfolding consume drop_cr
  blank u s = refl

  pub consume-frame :
      (f : Frame) (u : Text) (es : List A)
      → IsFrame f
      → consume emit (frame f ++ u) ([], resting es)
        ≡ consume emit u ([], resting (es ++ emit f.event f.payload (some f.id)))
  consume-frame f u es h =
      let lines_3 : Text = line (codes "data: ") f.payload (10 ∷ u) in
      let lines_2 : Text = line (codes "event: ") f.event lines_3 in
      ap (λ (t : Text). consume emit t ([], resting es)) (frame-append f u)
      ∙ take_line (codes "id: " ++ f.id) lines_2 (resting es)
          (plain-IsValue (codes "id: ") f.id refl h.id)
      ∙ ap (λ (s : Pending A). consume emit lines_2 ([], s)) (id_line f.id (resting es))
      ∙ take_line (codes "event: " ++ f.event) lines_3 _
          (plain-IsValue (codes "event: ") f.event refl h.event)
      ∙ ap (λ (s : Pending A). consume emit lines_3 ([], s)) (event_line f.event _)
      ∙ take_line (codes "data: " ++ f.payload) (10 ∷ u) _
          (plain-IsValue (codes "data: ") f.payload refl h.payload)
      ∙ ap (λ (s : Pending A). consume emit (10 ∷ u) ([], s)) (data_line f.payload _)
      ∙ blank u _
      ∙ ap (λ (s : Pending A). consume emit u ([], s)) (blank_line f es)

  abbrev pub deliveries : List Frame → List A
  deliveries [] = []
  deliveries (f ∷ fs) = emit f.event f.payload (some f.id) ++ deliveries fs

  consume-stream :
      (fs : List Frame) (es : List A)
      → All IsFrame fs
      → consume emit (stream fs) ([], resting es) ≡ ([], resting (es ++ deliveries fs))
  unfolding consume
  consume-stream [] es h = rw (append-nil es) refl
  consume-stream (f ∷ fs) es (h, hs) =
      consume-frame f (stream fs) es h
      ∙ consume-stream fs _ hs
      ∙ ap (λ (l : List A). ([], resting l)) (append_assoc es _ (deliveries fs))

  pub feed_all-stream :
      (chunks : List Text) (fs : List Frame)
      → concat chunks ≡ stream fs
      → All IsFrame fs
      → feed_all emit chunks ([], initial) ≡ ([], resting (deliveries fs))
  feed_all-stream chunks fs e h =
      feed_all-consume emit chunks [] initial tt
      ∙ ap (λ (t : Text). consume emit t ([], initial)) e
      ∙ consume-stream fs [] h

  -- A stream of frames, whose values are one line each and end in no carriage return, is read as
  -- those frames, each once and in order, however it is cut into chunks.
  pub parse-stream :
      (chunks : List Text) (fs : List Frame)
      → concat chunks ≡ stream fs
      → All IsFrame fs
      → parse emit chunks ≡ deliveries fs
  unfolding parse flush
  parse-stream chunks fs e h =
      ap (λ (r : Text × Pending A). (flush emit r.1).emitted) (feed_all-stream chunks fs e h)
