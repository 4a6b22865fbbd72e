-- ===== src/Client/Outcomes.antt =====
-- How the promise of a method of the SDK client settles, on every response: `#request` of
-- sdk/typescript/src/client.ts and `WopError` of sdk/typescript/src/types.ts.
use wop.Prelude.{
  String, ◌≡◌, ◌≢◌, ◌⊎◌, inl, inr, refl, sym, ap, subst, ◌∙◌, ◌↔◌, maybe, Bool-cases, true, false,
  Option, none, some, ◌==◌, eq_iff, arith, if_cases, maybe_cases,
}
use wop.Json.{Json, Fields, obj, find_field}
use wop.Platform.{Platform}
use wop.Client.{Web}
use wop.Client.Trace.{extract_trace_id, split_dashes}
use wop.Client.Traces.{Parent, extract_trace_id_iff}
use wop.Client.Outcome.{
  Incoming, Outcome, value, undefined, failed, rejected, is_ok, trace_of, envelope_of, both_fields,
  new_wop_error, error_envelope, traceparent_of, invalid_json, receive,
}

-- The trace id of an error is that of its traceparent, and there is none otherwise.
abbrev pub IsTraceOf : Option String → Option String → Type 0
IsTraceOf traceparent trace_id =
    (id : String) → (trace_id ≡ some id) ↔ ((t : String) × (traceparent ≡ some t) × Parent t id)

-- The empty text has no trace id anyway.
trace_of-extract : (t : String) → trace_of (some t) ≡ extract_trace_id t
unfolding extract_trace_id split_dashes
trace_of-extract t = elim (Bool-cases (t == "")) [
  | inl blank ↦ rw ((eq_iff t "").0 blank) refl
  | inr other ↦ rw other refl
]

trace_of-IsTraceOf : (o : Option String) → IsTraceOf o (trace_of o)
trace_of-IsTraceOf none id = (λ e. cc, λ (t, e, h). cc)
trace_of-IsTraceOf (some t) id = (
  λ e. (t, refl, (extract_trace_id_iff t id).0 (sym (trace_of-extract t) ∙ e)),
  λ (x, e, h).
      let same : t ≡ x = ground (arith, e) in
      trace_of-extract t ∙ (extract_trace_id_iff t id).1 (subst (λ y. Parent y id) (sym same) h),
)

-- An object with an error and a message.
abbrev pub IsErrorBody : Json → Option Json → Type 0
IsErrorBody v parsed =
    (fs : Fields) × (v ≡ obj fs)
    × (parsed ≡ some (obj fs))
    × (find_field "error" fs ≢ none)
    × (find_field "message" fs ≢ none)

envelope_of_iff : (o : Option Json) (v : Json) → (envelope_of o ≡ some v) ↔ IsErrorBody v o
unfolding envelope_of
envelope_of_iff none v = (λ e. cc, λ (fs, e, h, x, y). cc)
envelope_of_iff (some (obj fs)) v = go (find_field "error" fs) (find_field "message" fs) refl refl
  where
    go :
        (e m : Option Json)
        → find_field "error" fs ≡ e
        → find_field "message" fs ≡ m
        → (both_fields fs e m ≡ some v) ↔ IsErrorBody v (some (obj fs))
    go none m he hm = (λ h. cc, λ (gs, a, b, x, y). absurd (x (ground (arith, b, he))))
    go (some e) none he hm = (λ h. cc, λ (gs, a, b, x, y). absurd (y (ground (arith, b, hm))))
    go (some e) (some m) he hm = (
      λ h. (fs, ground (arith, h), refl, λ z. cc, λ z. cc),
      λ (gs, a, b, x, y). b ∙ ap (λ (u : Json). some u) (sym a),
    )
envelope_of_iff (some other) v = (λ e. cc, λ (fs, e, h, x, y). cc)

module _ (w : Web) (p : Platform) (res : Incoming) where
  -- The traceparent is the header of that name, and else that of the other spelling.
  abbrev pub IsTraceparent : Option String → Type 0
  IsTraceparent traceparent =
      (t : String)
      → (traceparent ≡ some t) ↔ (
          (res.header "traceparent" ≡ some t)
          ⊎ ((res.header "traceparent" ≡ none) × (res.header "Traceparent" ≡ some t)))

  -- The envelope is the text read as JSON, where this is an object with an error and a message, and
  -- there is none otherwise.
  abbrev pub IsEnvelope : Option Json → Type 0
  IsEnvelope envelope =
      (v : Json) → (envelope ≡ some v) ↔ ((res.text ≢ "") × IsErrorBody v (p.json_parse res.text))

  -- Why there is an error, and what its envelope is: the response is no success, or its text is not
  -- empty and not JSON.
  abbrev pub Cause : Option Json → Type 0
  Cause envelope =
      ((is_ok res.status ≡ false) × IsEnvelope envelope)
      ⊎ ((is_ok res.status ≡ true)
          × (res.text ≢ "")
          × (p.json_parse res.text ≡ none)
          × (envelope ≡ some invalid_json))

  -- What an outcome says of the response.
  abbrev pub Fits : Outcome → Type 0
  Fits (value v) = (is_ok res.status ≡ true) × (res.text ≢ "") × (p.json_parse res.text ≡ some v)
  Fits undefined = (is_ok res.status ≡ true) × (res.text ≡ "")
  Fits (failed e) =
      (e.status ≡ res.status)
      × (e.raw_text ≡ res.text)
      × IsTraceparent e.traceparent
      × IsTraceOf e.traceparent e.trace_id
      × Cause e.envelope
  Fits (rejected message) = ⊥

  traceparent_of-IsTraceparent : IsTraceparent (traceparent_of res)
  traceparent_of-IsTraceparent t = go (res.header "traceparent")
    where
      go :
          (o : Option String)
          → (maybe o (res.header "Traceparent") (λ s. some s) ≡ some t)
            ↔ ((o ≡ some t) ⊎ ((o ≡ none) × (res.header "Traceparent" ≡ some t)))
      go none = (λ e. inr (refl, e), λ c. elim c [ inl e ↦ cc | inr (e, h) ↦ h ])
      go (some s) = (λ e. inl e, λ c. elim c [ inl e ↦ e | inr (e, h) ↦ cc ])

  error_envelope-IsEnvelope : IsEnvelope (error_envelope w p res.text)
  error_envelope-IsEnvelope v = elim (Bool-cases (res.text == "")) [
    | inl blank ↦ rw blank (λ e. cc, λ (full, h). absurd (full ((eq_iff res.text "").0 blank)))
    | inr other ↦
        let full : res.text ≢ "" = λ e. ground (arith, other, (eq_iff res.text "").1 e) in
        let (to, back) = envelope_of_iff (p.json_parse res.text) v in
        rw other (λ e. (full, to e), λ (full', h). back h)
  ]

  Fits-failed :
      (envelope : Option Json)
      → Cause envelope
      → Fits (failed (new_wop_error w p res.status res.text envelope (traceparent_of res)))
  unfolding new_wop_error
  Fits-failed envelope cause =
      (refl, refl, traceparent_of-IsTraceparent, trace_of-IsTraceOf (traceparent_of res), cause)

  -- However a response reads, the promise settles as it says: with the value where the status is 2xx
  -- and the text is JSON, with `undefined` where the status is 2xx and the text is empty, and else
  -- with a `WopError` of this status and text. Its traceparent is the header's; its trace id is the one
  -- in the traceparent (a version without a dash, 32 hexadecimal digits and something more, with dashes
  -- between them), and it has none exactly where there is no such; and its envelope is `invalid_json`
  -- for a 2xx, and else the text's object where that has an error and a message, and none otherwise.
  pub receive-Fits : Fits (receive w p res)
  unfolding receive
  receive-Fits =
      if_cases Fits (is_ok res.status) _ _
        (λ ok.
          if_cases Fits (res.text == "") _ _ (λ blank. (ok, (eq_iff res.text "").0 blank))
            (λ other.
              let full : res.text ≢ "" = λ e. ground (arith, other, (eq_iff res.text "").1 e) in
              maybe_cases Fits (p.json_parse res.text) _ _
                (λ bad. Fits-failed (some invalid_json) (inr (ok, full, bad, refl)))
                (λ v parsed. (ok, full, parsed))))
        (λ bad. Fits-failed (error_envelope w p res.text) (inl (bad, error_envelope-IsEnvelope)))
