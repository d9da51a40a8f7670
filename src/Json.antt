-- ===== src/Json.antt =====
-- JSON values as the program holds them: the `dict`, `list`, `str`, `int`, `float`, `bool` and `None`
-- that `json.loads` and Django's JSONField give. An object is its entries in order.
pub mod Size
use Prim.Native.Nat.{◌/◌, ◌%◌}
use matrix_scanner_saas.Prelude.{
  ℕ, zero, suc, ◌+◌, Bool, true, false, not, ◌&&◌, Option, none, some, List, [], ◌∷◌, ltb,
  if◌then◌else◌,
}
use matrix_scanner_saas.Text.{Text, codes, text_eq}

-- `negsuc n` is -(n + 1).
pub data ℤ : Type 0 where
  pos : ℕ → ℤ
  negsuc : ℕ → ℤ

mutual
  pub data Value : Type 0 where
    null : Value
    bool : Bool → Value
    int : ℤ → Value
    -- A float is carried by its `repr`, the only thing that the program reads of one.
    float : Text → Value
    str : Text → Value
    arr : Items → Value
    obj : Fields → Value

  pub data Items : Type 0 where
    nil : Items
    cons : Value → Items → Items

  pub data Fields : Type 0 where
    end : Fields
    field : Text → Value → Fields → Fields

abbrev pub empty_object : Value
empty_object = obj end

-- d.get(key), for an object
unfoldable pub get : Fields → Text → Option Value
unfolding text_eq
get end key = none
get (field k v fs) key = if text_eq k key then some v else get fs key

abbrev pub keys : Fields → List Text
keys end = []
keys (field k v fs) = k ∷ keys fs

-- {**first, **second}: the entries of the second replace those of the first in place, and new keys
-- come behind.
unfoldable pub put : Fields → Text → Value → Fields
unfolding text_eq
put end key value = field key value end
put (field k v fs) key value =
    if text_eq k key then field k value fs else field k v (put fs key value)

unfoldable pub merge : Fields → Fields → Fields
unfolding put
merge first end = first
merge first (field k v fs) = merge (put first k v) fs

-- The decimal digits of a number, the last one first; `fuel` is a number above it.
unfoldable pub digits_rev : ℕ → ℕ → Text
digits_rev zero n = []
digits_rev (suc fuel) n =
    let rest = digits_rev fuel (n / 10) in (b'0' + n % 10) ∷ (if ltb n 10 then [] else rest)

abbrev pub back_onto : Text → Text → Text
back_onto [] acc = acc
back_onto (c ∷ s) acc = back_onto s (c ∷ acc)

-- str(n)
unfoldable pub show_nat : ℕ → Text
unfolding digits_rev
show_nat n = back_onto (digits_rev (suc n) n) []

unfoldable pub show_int : ℤ → Text
unfolding show_nat
show_int (pos n) = show_nat n
show_int (negsuc n) = b'-' ∷ show_nat (suc n)

-- bool(value), for a float by its `repr`
unfoldable pub truthy : Value → Bool
unfolding text_eq
truthy null = false
truthy (bool b) = b
truthy (int (pos zero)) = false
truthy (int _) = true
truthy (float s) = not (text_eq s (codes "0.0")) && not (text_eq s (codes "-0.0"))
truthy (str []) = false
truthy (str _) = true
truthy (arr nil) = false
truthy (arr _) = true
truthy (obj end) = false
truthy (obj _) = true

-- value or {}
unfoldable pub or_empty : Value → Value
unfolding truthy
or_empty v = if truthy v then v else empty_object
