-- ===== src/Memory/Cursor.antt =====
-- The cursor of `handleEventsPoll` and of `Last-Event-ID`: the events above a number, in a log that is
-- numbered from 0.
use wop.Prelude.{
  ℕ, suc, ◌+◌, ◌≤◌, ◌<◌, ◌≡◌, refl, sym, ap, subst, ◌∙◌, ◌⊎◌, inl, inr, true, false, List, [], ◌∷◌,
  ◌++◌, length, filter, filter-append, arith, Bool-cases,
}
use wop.Json.{Num, nan, infinite, finite, nat_num, is_above}
use wop.Memory.Run.{RunEvent, Run}
use wop.Memory.Log.{IsNumbered}
use wop.Memory.Reads.{events_since, last_seq}

-- A number above `x` stays so when it grows.
pub is_above_mono : (x : Num) (m n : ℕ) → m ≤ n → is_above m x ≡ true → is_above n x ≡ true
is_above_mono nan m n h a = a
is_above_mono (infinite b) m n h a = a
is_above_mono (finite true k d) m n h a = grind arith
is_above_mono (finite false k d) m n h a = grind arith

is_above_nat : (m n : ℕ) → m < n → is_above n (nat_num m) ≡ true
is_above_nat m n h = grind arith

not-is_above_nat : (m n : ℕ) → n ≤ m → is_above n (nat_num m) ≡ false
not-is_above_nat m n h = grind arith

abbrev pub above : Num → List RunEvent → List RunEvent
above x = filter (λ (e : RunEvent). is_above e.seq x)

-- In a log numbered from a number above `x` every event is.
pub above_all :
    (x : Num) (n : ℕ) (es : List RunEvent) → is_above n x ≡ true → IsNumbered n es → above x es ≡ es
above_all x n [] a h = refl
above_all x n (e ∷ es) a (q, h) =
    ground (arith, above_all x (suc n) es (is_above_mono x n (suc n) (omega arith) a) h)

above_none :
    (m n : ℕ) (es : List RunEvent)
    → n + length es ≤ suc m
    → IsNumbered n es
    → above (nat_num m) es ≡ []
above_none m n [] h k = refl
above_none m n (e ∷ es) h (q, k) =
    ground (arith, above_none m (suc n) es (omega arith) k, not-is_above_nat m n (omega arith))

IsNumbered-left : (n : ℕ) (es fs : List RunEvent) → IsNumbered n (es ++ fs) → IsNumbered n es
IsNumbered-left n [] fs h = tt
IsNumbered-left n (e ∷ es) fs (q, h) = (q, IsNumbered-left (suc n) es fs h)

pub IsNumbered-right :
    (n m : ℕ) (es fs : List RunEvent)
    → m ≡ n + length es
    → IsNumbered n (es ++ fs)
    → IsNumbered m fs
IsNumbered-right n m [] fs e h = let same : n ≡ m = omega (arith, e) in rw same at h
IsNumbered-right n m (x ∷ es) fs e (q, h) = IsNumbered-right (suc n) m es fs (omega (arith, e)) h

last_seq-numbered :
    (d : Num) (n m : ℕ) (e : RunEvent) (es : List RunEvent)
    → m ≡ n + length es
    → IsNumbered n (e ∷ es)
    → last_seq d (e ∷ es) ≡ nat_num m
unfolding last_seq
last_seq-numbered d n m e [] k (q, h) = ap nat_num (omega (arith, q, k))
last_seq-numbered d n m e (f ∷ es) k (q, h) =
    last_seq-numbered (nat_num e.seq) (suc n) m f es (omega (arith, k)) h

-- What is selected either is nothing, or ends with the last event, which is numbered `m`.
last_seq-above :
    (x d : Num) (n m : ℕ) (es : List RunEvent)
    → suc m ≡ n + length es
    → IsNumbered n es
    → (above x es ≡ []) ⊎ ((is_above m x ≡ true) × (last_seq d (above x es) ≡ nat_num m))
last_seq-above x d n m [] k h = inl refl
last_seq-above x d n m (e ∷ es) k (q, h) = elim (Bool-cases (is_above n x)) [
  | inl some_above ↦ inr (
    is_above_mono x n m (omega (arith, k)) some_above,
    ap (last_seq d) (above_all x n (e ∷ es) some_above (q, h))
        ∙ last_seq-numbered d n m e es (omega (arith, k)) (q, h),
  )
  | inr below ↦
      let skipped : above x (e ∷ es) ≡ above x es = ground arith in
      subst (λ (l : List RunEvent). (l ≡ []) ⊎ ((is_above m x ≡ true) × (last_seq d l ≡ nat_num m)))
        (sym skipped) (last_seq-above x d (suc n) m es (omega (arith, k)) h)
]

abbrev Cursor : Num → List RunEvent → List RunEvent → Type 0
Cursor since es more =
    above since es ++ above (last_seq since (above since es)) (es ++ more)
    ≡ above since (es ++ more)

Cursor-empty : (since : Num) (es more : List RunEvent) → above since es ≡ [] → Cursor since es more
unfolding last_seq
Cursor-empty since es more e =
    subst
      (λ (l : List RunEvent). l ++ above (last_seq since l) (es ++ more) ≡ above since (es ++ more))
      (sym e) refl

-- After the last event, numbered `m`, come the later ones alone.
above_last :
    (m : ℕ) (es more : List RunEvent)
    → suc m ≡ length es
    → IsNumbered 0 (es ++ more)
    → above (nat_num m) (es ++ more) ≡ more
above_last m es more k h =
    filter-append _ es more
    ∙ ap (λ (l : List RunEvent). l ++ above (nat_num m) more)
        (above_none m 0 es (omega (arith, k)) (IsNumbered-left 0 es more h))
    ∙ above_all (nat_num m) (suc m) more (is_above_nat m (suc m) (omega arith))
        (IsNumbered-right 0 (suc m) es more (omega (arith, k)) h)

-- A selection that reaches the end of the log takes in all that comes later.
above_later :
    (x : Num) (m : ℕ) (es more : List RunEvent)
    → suc m ≡ length es
    → is_above m x ≡ true
    → IsNumbered 0 (es ++ more)
    → above x (es ++ more) ≡ above x es ++ more
above_later x m es more k a h =
    filter-append _ es more
    ∙ ap (λ (l : List RunEvent). above x es ++ l)
        (above_all x (suc m) more (is_above_mono x m (suc m) (omega arith) a)
          (IsNumbered-right 0 (suc m) es more (omega (arith, k)) h))

Cursor-at :
    (since : Num) (m : ℕ) (es more : List RunEvent)
    → suc m ≡ length es
    → IsNumbered 0 (es ++ more)
    → Cursor since es more
Cursor-at since m es more k h =
    elim (last_seq-above since since 0 m es (omega (arith, k)) (IsNumbered-left 0 es more h)) [
      | inl none_above ↦ Cursor-empty since es more none_above
      | inr (a, last) ↦
          ap (λ (x : Num). above since es ++ above x (es ++ more)) last
          ∙ ap (λ (l : List RunEvent). above since es ++ l) (above_last m es more k h)
          ∙ sym (above_later since m es more k a h)
    ]

cursor : (since : Num) (es more : List RunEvent) → IsNumbered 0 (es ++ more) → Cursor since es more
cursor since [] more h = Cursor-empty since [] more refl
cursor since (e ∷ es) more h = Cursor-at since (length es) (e ∷ es) more refl h

-- In a log numbered from 0: a client that polls with `since`, and then, when more may have been appended, with the
-- `lastEventSeq` of the first answer, gets in both answers together exactly the events above `since`,
-- each once and in order.
pub poll_cursor :
    (since : Num) (run : Run) (more : List RunEvent)
    → IsNumbered 0 (run.events ++ more)
    → let later = record run { events = run.events ++ more } in
      let seen = events_since since run in
      seen ++ events_since (last_seq since seen) later ≡ events_since since later
unfolding events_since
poll_cursor since run more h = cursor since run.events more h
