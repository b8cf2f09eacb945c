-- ===== src/Helpers/Json/Finite.antt =====
-- JSON without infinite numbers, on which `_safe_int` never raises.
use fansly_scraper.Common.{
  ◌≡◌, refl, inl, inr, Option-cases, Bool, true, false, ◌&&◌, Option, none, some, arith, String,
  if◌then◌else◌,
}
use fansly_scraper.Common.Int.{ℤ}
use fansly_scraper.Common.Classes.{string_keyed}
use fansly_scraper.Helpers.Result.{Result, ok, raise, overflow_error}
use fansly_scraper.Helpers.Json.{
  Double, finite, infinite, nan, Value, null, bool, int, float, str, arr, obj, Items, nil, cons,
  Fields, end, field, get_field, field_or_null, safe_int, expect_int,
}

abbrev pub is_finite_double : Double → Bool
is_finite_double (finite m k) = true
is_finite_double (infinite b) = false
is_finite_double nan = true

unfoldable mutual
  pub has_no_infinity : Value → Bool
  has_no_infinity null = true
  has_no_infinity (bool b) = true
  has_no_infinity (int n) = true
  has_no_infinity (float d) = is_finite_double d
  has_no_infinity (str s) = true
  has_no_infinity (arr vs) = items_no_infinity vs
  has_no_infinity (obj fs) = fields_no_infinity fs

  pub items_no_infinity : Items → Bool
  items_no_infinity nil = true
  items_no_infinity (cons v vs) = has_no_infinity v && items_no_infinity vs

  pub fields_no_infinity : Fields → Bool
  fields_no_infinity end = true
  fields_no_infinity (field k v fs) = has_no_infinity v && fields_no_infinity fs

pub get_field-no_infinity :
    (fs : Fields) (k : String) (v : Value)
    → fields_no_infinity fs ≡ true
    → get_field fs k ≡ some v
    → has_no_infinity v ≡ true
unfolding fields_no_infinity get_field has_no_infinity
get_field-no_infinity end k v h e = cc
get_field-no_infinity (field j w fs) k v h e = ground (arith, get_field-no_infinity fs k v)

pub field_or_null-no_infinity :
    (fs : Fields) (k : String)
    → fields_no_infinity fs ≡ true
    → has_no_infinity (field_or_null fs k) ≡ true
unfolding field_or_null has_no_infinity
field_or_null-no_infinity fs k h = elim (Option-cases (get_field fs k)) [
  | inl e ↦ rw (e, field_or_null)
  | inr (v, e) ↦ rw (e, field_or_null) (get_field-no_infinity fs k v h e)
]

-- float("inf") and float("-inf")
abbrev pub is_infinity : Value → Bool
is_infinity (float (infinite b)) = true
is_infinity _ = false

abbrev is_bool : Value → Bool
is_bool (bool b) = true
is_bool _ = false

abbrev returned : Result ℤ → Option ℤ
returned (ok n) = some n
returned (raise e) = none

-- The integer that a value stands for, if any: what `expect_int` returns, with Booleans refused.
unfoldable pub int_value : Value → Option ℤ
int_value v = if is_bool v then none else returned (expect_int v)

-- `_safe_int` returns, on every value but an infinite number, the integer that `expect_int` gives,
-- and None for a Boolean and where `expect_int` raises; on an infinite number it raises
-- OverflowError.
pub safe_int_lem :
    (v : Value) → safe_int v ≡ (if is_infinity v then raise overflow_error else ok (int_value v))
unfolding safe_int expect_int int_value
safe_int_lem null = refl
safe_int_lem (bool b) = refl
safe_int_lem (int n) = refl
safe_int_lem (float (finite m k)) = refl
safe_int_lem (float (infinite b)) = refl
safe_int_lem (float nan) = refl
safe_int_lem (str s) = ground arith
safe_int_lem (arr vs) = refl
safe_int_lem (obj fs) = refl

pub safe_int_returns : (v : Value) → has_no_infinity v ≡ true → safe_int v ≡ ok (int_value v)
unfolding has_no_infinity int_value
safe_int_returns (float (infinite b)) h = cc
safe_int_returns v h = rw safe_int_lem

-- What `_safe_int` returns is the integer that the value stands for.
pub safe_int-int_value : (v : Value) (x : Option ℤ) → safe_int v ≡ ok x → int_value v ≡ x
safe_int-int_value v x h = ground (arith, safe_int_lem v)

-- What `_safe_int` returns at a field of a payload without infinite numbers.
pub safe_int-field :
    (fs : Fields) (k : String)
    → fields_no_infinity fs ≡ true
    → safe_int (field_or_null fs k) ≡ ok (int_value (field_or_null fs k))
safe_int-field fs k h = safe_int_returns (field_or_null fs k) (field_or_null-no_infinity fs k h)

pub object-no_infinity :
    (fs gs : Fields) (k : String)
    → fields_no_infinity fs ≡ true
    → field_or_null fs k ≡ obj gs
    → fields_no_infinity gs ≡ true
unfolding has_no_infinity
object-no_infinity fs gs k h e = rw e at (field_or_null-no_infinity fs k h)
