-- ===== src/Prelude/Lists.antt =====
-- Lists measured by native numbers, filters by a Boolean test, and association lists keyed by text.
use Prim.Native.Nat.{ℕ, suc, ◌+◌}
use Prim.Native.String.{String}
use mathlib.Core.Path.{◌≡◌, refl, subst₂}
use mathlib.Core.Logic.{inl, inr}
use mathlib.Core.Bool.{Bool, true, false, ◌&&◌, ◌||◌}
use mathlib.Core.List.{List, [], ◌∷◌, ◌++◌}
use mathlib.Core.Option.{Option, none, some, some-injective}
use native.Mathlib.Omega.{arith}
use text.Mathlib.Text.{◌==◌}
use text.Mathlib.TextEquality.{eq_iff}
use wop.Prelude.Tests.{if◌then◌else◌, if_cases, Bool-cases}

module _ {ℓ} {A : Type ℓ} where
  abbrev pub length : List A → ℕ
  length [] = 0
  length (x ∷ xs) = suc (length xs)

  pub length-append : (xs ys : List A) → length (xs ++ ys) ≡ length xs + length ys
  length-append [] ys = omega arith
  length-append (x ∷ xs) ys = omega (arith, length-append xs ys)

  -- `Array.prototype.filter`
  abbrev pub filter : (A → Bool) → List A → List A
  filter p [] = []
  filter p (x ∷ xs) = let rest = filter p xs in if p x then x ∷ rest else rest

  pub filter-append :
      (p : A → Bool) (xs ys : List A) → filter p (xs ++ ys) ≡ filter p xs ++ filter p ys
  filter-append p [] ys = refl
  filter-append p (x ∷ xs) ys = ground (arith, filter-append p xs ys)

  -- `Array.prototype.some`
  abbrev pub any : (A → Bool) → List A → Bool
  any p [] = false
  any p (x ∷ xs) = p x || any p xs

  -- `Array.prototype.every`
  abbrev pub all : (A → Bool) → List A → Bool
  all p [] = true
  all p (x ∷ xs) = p x && all p xs

  -- Every element has the property; a proof is the tuple of theirs.
  abbrev pub All {κ} : (A → Type κ) → List A → Type κ
  All holds [] = Unit
  All holds (a ∷ rest) = holds a × All holds rest

  pub All-append {κ} :
      (holds : A → Type κ) (front back : List A)
      → All holds front
      → All holds back
      → All holds (front ++ back)
  All-append holds [] back hf hb = hb
  All-append holds (a ∷ front) back (ha, hf) hb = (ha, All-append holds front back hf hb)

  pub All-at {κ} : (P : A → Type κ) (xs ys : List A) (x : A) → All P (xs ++ x ∷ ys) → P x
  All-at P [] ys x h = h.0
  All-at P (y ∷ xs) ys x h = All-at P xs ys x h.1

  pub All-filter {κ} :
      (P : A → Type κ) (p : A → Bool) (xs : List A) → All P xs → All P (filter p xs)
  All-filter P p [] h = tt
  All-filter P p (x ∷ xs) (h, hs) =
      if_cases (All P) (p x) _ _ (λ kept. (h, All-filter P p xs hs))
        (λ dropped. All-filter P p xs hs)

-- A `Map` with string keys, in insertion order.
module _ {ℓ} {V : Type ℓ} where
  -- `map.get(key)`, `undefined` as `none`
  abbrev pub lookup : String → List (String × V) → Option V
  lookup key [] = none
  lookup key ((here, value) ∷ rest) = if here == key then some value else lookup key rest

  -- `map.set(key, value)`: an existing entry keeps its place
  abbrev pub insert : String → V → List (String × V) → List (String × V)
  insert key value [] = (key, value) ∷ []
  insert key value ((here, old) ∷ rest) =
      let later = insert key value rest in
      if here == key then (key, value) ∷ rest else (here, old) ∷ later

  pub lookup-insert :
      (key asked : String) (value : V) (entries : List (String × V))
      → lookup asked (insert key value entries)
        ≡ (if key == asked then some value else lookup asked entries)
  lookup-insert key asked value [] = refl
  lookup-insert key asked value ((here, old) ∷ rest) =
      let later = lookup-insert key asked value rest in
      ground (arith, later, eq_iff here key, eq_iff here asked, eq_iff key asked)

  -- What holds of the first entry under a key.
  pub All-lookup {κ} :
      (P : String × V → Type κ) (k : String) (m : List (String × V)) {v : V}
      → lookup k m ≡ some v
      → All P m
      → P (k, v)
  All-lookup P k [] e hs = cc
  All-lookup P k ((j, w) ∷ m) {v} e (h, hs) = elim (Bool-cases (j == k)) [
    | inl same ↦
        let found : some w ≡ some v = rw same at e in
        subst₂ (λ (a : String) (b : V). P (a, b)) ((eq_iff j k).0 same) (some-injective w v found) h
    | inr other ↦ All-lookup P k m (rw other at e) hs
  ]

  pub All-insert {κ} :
      (P : String × V → Type κ) (k : String) (v : V) (m : List (String × V))
      → P (k, v)
      → All P m
      → All P (insert k v m)
  All-insert P k v [] h hs = (h, tt)
  All-insert P k v ((j, w) ∷ m) h (hj, hs) =
      if_cases (All P) (j == k) _ _ (λ same. (h, hs)) (λ other. (hj, All-insert P k v m h hs))

  -- An entry that the filter keeps is found where it was inserted.
  pub lookup-filter-insert :
      (keep : String × V → Bool) (k : String) (v : V) (m : List (String × V))
      → keep (k, v) ≡ true
      → lookup k (filter keep (insert k v m)) ≡ some v
  lookup-filter-insert keep k v [] h = rw h (ground (arith, eq_iff k k))
  lookup-filter-insert keep k v ((j, w) ∷ m) h =
      ground (arith, eq_iff j k, eq_iff k k, h, lookup-filter-insert keep k v m)
