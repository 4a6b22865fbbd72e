-- ===== src/Sse/Chunks.antt =====
-- The parser does not depend on how the network cuts the stream into chunks.
use wop.Prelude.{
  ℕ, zero, suc, ◌+◌, ◌≤◌, ◌≡◌, ◌≢◌, refl, sym, ap, ◌∙◌, Option, none, some, List, [], ◌∷◌, ◌++◌,
  append_assoc, append-nil, length, eqb, All, All-append, arith, if_cases, if◌then◌else◌,
}
use wop.Sse.Parser.{
  Text, cut, drop_cr, Pending, initial, flush, on_line, drain, feed, feed_all, parse,
}

-- No line feed.
abbrev pub IsOneLine : Text → Type 0
IsOneLine = All (λ (c : ℕ). c ≢ 10)

cut-none : (t : Text) → IsOneLine t → cut 10 t ≡ none
unfolding cut
cut-none [] h = refl
cut-none (c ∷ t) (h, hs) = ground (arith, cut-none t hs)

cut-some : (t u : Text) → IsOneLine t → cut 10 (t ++ 10 ∷ u) ≡ some (t, u)
unfolding cut
cut-some [] u h = refl
cut-some (c ∷ t) u (h, hs) = ground (arith, cut-some t u hs)

abbrev pub concat : List Text → Text
concat [] = []
concat (c ∷ cs) = c ++ concat cs

module _ {ℓ} {A : Type ℓ} (emit : Text → Text → Option Text → List A) where
  -- The same, one character at a time.
  unfoldable pub consume : Text → Text × Pending A → Text × Pending A
  consume [] s = s
  consume (c ∷ cs) (buffer, s) =
      consume cs (if eqb c 10 then ([], on_line emit (drop_cr buffer) s) else (buffer ++ c ∷ [], s))

  drain-consume :
      (fuel : ℕ) (cs buffer : Text) (s : Pending A)
      → length cs ≤ fuel
      → IsOneLine buffer
      → drain emit fuel (buffer ++ cs) s ≡ consume cs (buffer, s)
  unfolding drain consume
  drain-consume zero [] buffer s h line = rw append-nil refl
  drain-consume (suc fuel) [] buffer s h line = rw append-nil (rw (cut-none buffer line) refl)
  drain-consume zero (c ∷ cs) buffer s h line = absurd (omega (arith, h))
  drain-consume (suc fuel) (c ∷ cs) buffer s h line =
      let fits : length cs ≤ fuel = omega (arith, h) in
      if_cases (λ (r : Text × Pending A). drain emit (suc fuel) (buffer ++ c ∷ cs) s ≡ consume cs r)
        (eqb c 10) _ _
        (λ here.
          let lf : c ≡ 10 = grind (arith, here) in
          rw lf (
            rw (cut-some buffer cs line)
              (drain-consume fuel cs [] (on_line emit (drop_cr buffer) s) fits tt)))
        (λ other.
          let own : c ≢ 10 = ground (arith, other) in
          let moved : buffer ++ c ∷ cs ≡ (buffer ++ c ∷ []) ++ cs =
            sym (append_assoc buffer (c ∷ []) cs) in
          rw moved (
            drain-consume (suc fuel) cs (buffer ++ c ∷ []) s (omega (arith, fits))
              (All-append _ buffer (c ∷ []) line (own, tt))))

  pub consume-append :
      (xs ys : Text) (r : Text × Pending A) → consume (xs ++ ys) r ≡ consume ys (consume xs r)
  unfolding consume
  consume-append [] ys r = refl
  consume-append (c ∷ xs) ys (buffer, s) = consume-append xs ys _

  consume-IsOneLine :
      (cs buffer : Text) (s : Pending A) → IsOneLine buffer → IsOneLine (consume cs (buffer, s)).0
  unfolding consume
  consume-IsOneLine [] buffer s line = line
  consume-IsOneLine (c ∷ cs) buffer s line =
      if_cases (λ (r : Text × Pending A). IsOneLine (consume cs r).0) (eqb c 10) _ _
        (λ here. consume-IsOneLine cs [] _ tt)
        (λ other.
          consume-IsOneLine cs _ s (All-append _ buffer (c ∷ []) line (ground (arith, other), tt)))

  pub feed-consume :
      (chunk buffer : Text) (s : Pending A)
      → IsOneLine buffer
      → feed emit chunk (buffer, s) ≡ consume chunk (buffer, s)
  unfolding feed
  feed-consume chunk buffer s line =
      drain-consume (length buffer + length chunk) chunk buffer s (omega arith) line

  pub feed_all-consume :
      (chunks : List Text) (buffer : Text) (s : Pending A)
      → IsOneLine buffer
      → feed_all emit chunks (buffer, s) ≡ consume (concat chunks) (buffer, s)
  unfolding feed_all consume
  feed_all-consume [] buffer s line = refl
  feed_all-consume (c ∷ cs) buffer s line = rw (feed-consume c buffer s line) (
      feed_all-consume cs (consume c (buffer, s)).0 (consume c (buffer, s)).1
        (consume-IsOneLine c buffer s line)
      ∙ sym (consume-append c (concat cs) (buffer, s)))

  -- However the stream is cut into chunks, the reader emits what it emits for the stream in one
  -- piece, whatever it makes of a complete event.
  pub parse-concat : (chunks : List Text) → parse emit chunks ≡ parse emit (concat chunks ∷ [])
  unfolding parse
  parse-concat chunks =
      let end : Text = concat chunks in
      let pieces = feed_all-consume chunks [] initial tt in
      let whole = feed_all-consume (end ∷ []) [] initial tt in
      let same = ap (λ (t : Text). consume t ([], initial)) (append-nil end) in
      ap (λ (r : Text × Pending A). (flush emit r.1).emitted) (pieces ∙ sym (whole ∙ same))
