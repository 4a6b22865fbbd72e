-- ===== src/Json.antt =====
-- The values that `JSON.parse` returns and `JSON.stringify` takes, and what the program reads of them
-- (`typeof`, property reads, `Array.isArray`). The TypeScript sources treat them as `unknown`.
use wop.Prelude.{
  ℕ, suc, ◌+◌, ◌*◌, String, Bool, true, false, Option, none, some, List, [], ◌∷◌, ltb, ◌==◌,
  if◌then◌else◌,
}

-- A JavaScript number. A finite one is a fraction, `± numerator / (pred_denominator + 1)`, which
-- every double is; so an order test against a natural number is exact.
pub data Num : Type 0 where
  nan : Num
  infinite : (negative : Bool) → Num
  finite : (negative : Bool) (numerator pred_denominator : ℕ) → Num

abbrev pub nat_num : ℕ → Num
nat_num n = finite false n 0

-- the literal `-1`
abbrev pub minus_one : Num
minus_one = finite true 1 0

-- `n > x` for a natural number `n`; every order test with NaN is false
abbrev pub is_above : ℕ → Num → Bool
is_above n nan = false
is_above n (infinite negative) = negative
is_above n (finite true a d) = ltb 0 (n * suc d + a)
is_above n (finite false a d) = ltb a (n * suc d)

-- `Number.isFinite`
abbrev pub is_finite : Num → Bool
is_finite (finite _ _ _) = true
is_finite _ = false

mutual
  pub data Json : Type 0 where
    null : Json
    bool : Bool → Json
    num : Num → Json
    str : String → Json
    arr : Items → Json
    obj : Fields → Json

  pub data Items : Type 0 where
    nil : Items
    cons : Json → Items → Items

  pub data Fields : Type 0 where
    end : Fields
    field : String → Json → Fields → Fields

abbrev pub items : Items → List Json
items nil = []
items (cons v vs) = v ∷ items vs

abbrev pub to_items : List Json → Items
to_items [] = nil
to_items (v ∷ vs) = cons v (to_items vs)

abbrev pub to_fields : List (String × Json) → Fields
to_fields [] = end
to_fields ((k, v) ∷ r) = field k v (to_fields r)

-- An object literal and an array literal.
abbrev pub object : List (String × Json) → Json
object r = obj (to_fields r)

abbrev pub array : List Json → Json
array vs = arr (to_items vs)

-- `null` for an absent text
abbrev pub nullable : Option String → Json
nullable none = null
nullable (some s) = str s

abbrev pub find_field : String → Fields → Option Json
find_field k end = none
find_field k (field j v r) = if j == k then some v else find_field k r
