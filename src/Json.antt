-- ===== src/Json.antt =====
-- JSON values as `json.loads` builds them, and the tests that Python makes on them.
use llama_net.Prelude.{
  ℕ, zero, suc, ◌*◌, Bool, true, false, not, Option, none, some, String, str_eq, if◌then◌else◌,
}
use llama_net.Prelude.Int.{ℤ, pos, ltb_ℤ}

-- A float: a ratio with the denominator d + 1, or what json.loads makes of NaN and Infinity.
pub data Real : Type 0 where
  ratio : ℤ → ℕ → Real
  nan infinity minus_infinity : Real

mutual
  -- A list.
  pub data Items : Type 0 where
    nil : Items
    cons : Value → Items → Items

  -- An object, in the order of the text.
  pub data Fields : Type 0 where
    end : Fields
    field : String → Value → Fields → Fields

  -- `int` is a number without a fraction or an exponent.
  pub data Value : Type 0 where
    str : String → Value
    null : Value
    int : ℤ → Value
    real : Real → Value
    bool : Bool → Value
    arr : Items → Value
    obj : Fields → Value

-- `body.get(k)`; a key that a text repeats counts with its last value, so `json.loads` leaves one.
unfoldable pub get : Fields → String → Option Value
get end k = none
get (field j v f) k = if str_eq j k then some v else get f k

-- `body.get(k, default)`
abbrev pub get_or : Fields → String → Value → Value
get_or f k v = elim (get f k) [ none ↦ v | some w ↦ w ]

unfoldable pub length : Items → ℕ
length nil = 0
length (cons v xs) = suc (length xs)

unfoldable pub size : Fields → ℕ
size end = 0
size (field k v f) = suc (size f)

-- `body.pop(k, default)`: what is left
unfoldable pub without : String → Fields → Fields
without k end = end
without k (field j v f) = let rest = without k f in if str_eq j k then rest else field j v rest

unfoldable pub take : ℕ → Items → Items
take zero xs = nil
take (suc n) nil = nil
take (suc n) (cons v xs) = cons v (take n xs)

-- `bool(v)`
unfoldable pub truthy : Value → Bool
truthy null = false
truthy (bool b) = b
truthy (int (pos zero)) = false
truthy (int _) = true
truthy (real (ratio (pos zero) d)) = false
truthy (real _) = true
truthy (str s) = not (str_eq s "")
truthy (arr nil) = false
truthy (arr (cons v xs)) = true
truthy (obj end) = false
truthy (obj (field k v f)) = true

-- An `int` in Python's sense: True and False are 1 and 0.
unfoldable pub as_int : Value → Option ℤ
as_int (bool true) = some (pos 1)
as_int (bool false) = some (pos 0)
as_int (int n) = some n
as_int _ = none

-- A value that may be compared with a number.
unfoldable pub as_number : Value → Option Real
as_number (bool true) = some (ratio (pos 1) 0)
as_number (bool false) = some (ratio (pos 0) 0)
as_number (int n) = some (ratio n 0)
as_number (real x) = some x
as_number _ = none

-- `x < n` and `x > n` for a whole number n. NaN compares false with everything.
unfoldable pub below : Real → ℕ → Bool
below (ratio p d) n = ltb_ℤ p (pos (n * suc d))
below minus_infinity n = true
below _ n = false

unfoldable pub above : Real → ℕ → Bool
above (ratio p d) n = ltb_ℤ (pos (n * suc d)) p
above infinity n = true
above _ n = false
