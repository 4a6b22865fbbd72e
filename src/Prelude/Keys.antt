-- ===== src/Prelude/Keys.antt =====
-- Tables with a unique key: what a pass over some of their keys does to each entry.
use Prim.Native.String.{String}
use mathlib.Core.Path.{◌≡◌, refl}
use mathlib.Core.Logic.{inl, inr}
use mathlib.Core.Bool.{Bool, false}
use mathlib.Core.List.{List, [], ◌∷◌}
use mathlib.Core.Option.{Option, none, some}
use native.Mathlib.Omega.{arith}
use text.Mathlib.Text.{◌==◌}
use text.Mathlib.TextEquality.{eq_iff}
use wop.Prelude.Tests.{if◌then◌else◌, if_cases, Bool-cases, maybe, maybe_cases}
use wop.Prelude.Lists.{any, filter, lookup, insert, lookup-insert, All, All-insert, All-lookup}

abbrev pub member : String → List String → Bool
member key = any (λ (k : String). k == key)

-- No key stands twice.
abbrev pub NoDup : List String → Type 0
NoDup [] = Unit
NoDup (k ∷ ks) = (member k ks ≡ false) × NoDup ks

module _ {ℓ} {V : Type ℓ} where
  abbrev pub keys : List (String × V) → List String
  keys [] = []
  keys ((k, v) ∷ m) = k ∷ keys m

  -- The entry under a key is changed, where there is one.
  abbrev pub update : (V → V) → String → List (String × V) → List (String × V)
  update f key m = maybe (lookup key m) m (λ v. insert key (f v) m)

  -- A loop over keys that changes the entry of each.
  abbrev pub update_each : (String → V → V) → List String → List (String × V) → List (String × V)
  update_each f [] m = m
  update_each f (key ∷ ks) m = update_each f ks (update (f key) key m)

  abbrev pub changed : (V → V) → Option V → Option V
  changed f none = none
  changed f (some v) = some (f v)

  lookup-maybe :
      (f : V → V) (key asked : String) (m : List (String × V)) (o : Option V)
      → lookup key m ≡ o
      → lookup asked (maybe o m (λ v. insert key (f v) m))
        ≡ (if key == asked then changed f (lookup asked m) else lookup asked m)
  lookup-maybe f key asked m none e = elim (Bool-cases (key == asked)) [
    | inl same ↦
        let at : lookup asked m ≡ none = rw ((eq_iff key asked).0 same) at e in rw (same, at) refl
    | inr other ↦ rw other refl
  ]
  lookup-maybe f key asked m (some v) e = elim (Bool-cases (key == asked)) [
    | inl same ↦
        let at : lookup asked m ≡ some v = rw ((eq_iff key asked).0 same) at e in
        rw (lookup-insert key asked (f v) m, same, at) refl
    | inr other ↦ rw (lookup-insert key asked (f v) m, other) refl
  ]

  lookup-update :
      (f : V → V) (key asked : String) (m : List (String × V))
      → lookup asked (update f key m)
        ≡ (if key == asked then changed f (lookup asked m) else lookup asked m)
  lookup-update f key asked m = lookup-maybe f key asked m (lookup key m) refl

  -- A pass over keys, none of them twice, changes the entries under them, once, and no others.
  pub lookup-update_each :
      (f : String → V → V) (ks : List String) (asked : String) (m : List (String × V))
      → NoDup ks
      → lookup asked (update_each f ks m)
        ≡ (if member asked ks then changed (f asked) (lookup asked m) else lookup asked m)
  lookup-update_each f [] asked m d = refl
  lookup-update_each f (k ∷ ks) asked m (new, d) =
      let later = lookup-update_each f ks asked (update (f k) k m) d in
      let here = lookup-update (f k) k asked m in
      elim (Bool-cases (k == asked)) [
        | inl same ↦
            let e : k ≡ asked = (eq_iff k asked).0 same in
            let not_later : member asked ks ≡ false = rw e at new in
            let at : lookup asked (update (f k) k m) ≡ changed (f k) (lookup asked m) =
              rw same at here in
            rw (same, later, not_later, at, e) refl
        | inr other ↦
            let at : lookup asked (update (f k) k m) ≡ lookup asked m = rw other at here in
            rw (other, later, at) refl
      ]

  -- The keys of the entries whose value passes a test.
  abbrev pub keys_where : (V → Bool) → List (String × V) → List String
  keys_where q m = keys (filter (λ (e : String × V). q e.1) m)

  member-keys_where :
      (q : V → Bool) (asked : String) (m : List (String × V))
      → member asked (keys m) ≡ false
      → member asked (keys_where q m) ≡ false
  member-keys_where q asked [] h = refl
  member-keys_where q asked ((k, v) ∷ m) h =
      let rest : member asked (keys m) ≡ false = ground (arith, h) in
      let later = member-keys_where q asked m rest in
      if_cases (λ (x : List (String × V)). member asked (keys x) ≡ false) (q v) _ _
        (λ kept. rw later (ground (arith, h))) (λ dropped. later)

  pub NoDup-keys_where :
      (q : V → Bool) (m : List (String × V)) → NoDup (keys m) → NoDup (keys_where q m)
  NoDup-keys_where q [] d = tt
  NoDup-keys_where q ((k, v) ∷ m) (new, d) =
      if_cases (λ (x : List (String × V)). NoDup (keys x)) (q v) _ _
        (λ kept. (member-keys_where q k m new, NoDup-keys_where q m d))
        (λ dropped. NoDup-keys_where q m d)

  absent-lookup :
      (asked : String) (m : List (String × V))
      → member asked (keys m) ≡ false
      → lookup asked m ≡ none
  absent-lookup asked [] h = refl
  absent-lookup asked ((k, v) ∷ m) h = ground (arith, h, absent-lookup asked m)

  -- Such a key is among them exactly where its entry passes.
  pub member-lookup :
      (q : V → Bool) (asked : String) (m : List (String × V))
      → NoDup (keys m)
      → member asked (keys_where q m) ≡ maybe (lookup asked m) false q
  member-lookup q asked [] d = refl
  member-lookup q asked ((k, v) ∷ m) (new, d) =
      let later = member-lookup q asked m d in
      elim (Bool-cases (k == asked)) [
        | inl same ↦
            let e : k ≡ asked = (eq_iff k asked).0 same in
            let gone : member asked (keys m) ≡ false = rw e at new in
            rw same (
              if_cases (λ (x : List (String × V)). member asked (keys x) ≡ q v) (q v) _ _
                (λ kept. rw (same, kept) refl)
                (λ dropped. rw (member-keys_where q asked m gone, dropped) refl))
        | inr other ↦ rw other (
            if_cases
              (λ (x : List (String × V)). member asked (keys x) ≡ maybe (lookup asked m) false q)
              (q v) _ _ (λ kept. rw (other, later) refl) (λ dropped. later))
      ]

  member-insert :
      (key asked : String) (v : V) (m : List (String × V))
      → member asked (keys m) ≡ false
      → (key == asked) ≡ false
      → member asked (keys (insert key v m)) ≡ false
  member-insert key asked v [] h other = rw other refl
  member-insert key asked v ((k, u) ∷ m) h other =
      let rest : member asked (keys m) ≡ false = ground (arith, h) in
      let later = member-insert key asked v m rest other in
      if_cases (λ (x : List (String × V)). member asked (keys x) ≡ false) (k == key) _ _
        (λ same. rw (other, rest) refl) (λ differ. rw later (ground (arith, h)))

  -- `map.set` gives no key twice.
  pub NoDup-insert :
      (key : String) (v : V) (m : List (String × V))
      → NoDup (keys m)
      → NoDup (keys (insert key v m))
  NoDup-insert key v [] d = (refl, tt)
  NoDup-insert key v ((k, u) ∷ m) (new, d) = elim (Bool-cases (k == key)) [
    | inl same ↦ rw same (rw ((eq_iff k key).0 same) at new, d)
    | inr other ↦
        let swapped : (key == k) ≡ false = ground (arith, eq_iff key k, eq_iff k key, other) in
        rw other (member-insert key k v m new swapped, NoDup-insert key v m d)
  ]

  pub NoDup-update_each :
      (f : String → V → V) (ks : List String) (m : List (String × V))
      → NoDup (keys m)
      → NoDup (keys (update_each f ks m))
  NoDup-update_each f [] m d = d
  NoDup-update_each f (k ∷ ks) m d = NoDup-update_each f ks (update (f k) k m) (
      maybe_cases (λ (x : List (String × V)). NoDup (keys x)) (lookup k m) _ _ (λ e. d)
        (λ v e. NoDup-insert k (f k v) m d))

  -- What each change keeps of an entry, the pass keeps of all.
  pub All-update_each {κ} :
      (P : String × V → Type κ) (f : String → V → V) (ks : List String) (m : List (String × V))
      → ((key : String) (v : V) → P (key, v) → P (key, f key v))
      → All P m
      → All P (update_each f ks m)
  All-update_each P f [] m keep h = h
  All-update_each P f (k ∷ ks) m keep h = All-update_each P f ks (update (f k) k m) keep (
      maybe_cases (All P) (lookup k m) _ _ (λ e. h)
        (λ v e. All-insert P k (f k v) m (keep k v (All-lookup P k m e h)) h))
