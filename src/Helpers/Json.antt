-- ===== src/Helpers/Json.antt =====
-- JSON values as Python holds them, and helpers/common.py's narrowing functions.
pub mod Finite
use fansly_scraper.Common.{
  ℕ, ◌*◌, ◌^◌, Bool, true, false, not, ◌&&◌, Option, none, some, List, [], ◌∷◌, nat_beq, String,
  if◌then◌else◌,
}
use fansly_scraper.Common.Int.{ℤ, pos, negsuc, int_beq, int_quot, int_scale}
use fansly_scraper.Common.Classes.{◌==◌, string_keyed}
use fansly_scraper.Helpers.Result.{Result, ok, raise, type_error, value_error, overflow_error}
use fansly_scraper.Helpers.Text.{codes, int_of_text}

-- A double: m / 2 ^ k, an infinity (negative if the flag is set), or not a number.
pub data Double : Type 0 where
  finite : ℤ → ℕ → Double
  infinite : Bool → Double
  nan : Double

-- The members of an object, a value, and the elements of an array.
mutual
  pub data Fields : Type 0 where
    field : String → Value → Fields → Fields
    end : Fields

  pub data Value : Type 0 where
    obj : Fields → Value
    arr : Items → Value
    str : String → Value
    float : Double → Value
    int : ℤ → Value
    bool : Bool → Value
    null : Value

  pub data Items : Type 0 where
    cons : Value → Items → Items
    nil : Items

-- event.get(key)
unfoldable pub get_field : Fields → String → Option Value
get_field end k = none
get_field (field j v fs) k = if j == k then some v else get_field fs k

-- event.get(key), with None for a missing key
unfoldable pub field_or_null : Fields → String → Value
unfolding get_field
field_or_null fs k = elim (get_field fs k) [ none ↦ null | some v ↦ v ]

abbrev pub items : Items → List Value
items nil = []
items (cons v vs) = v ∷ items vs

-- bool(value)
unfoldable pub truthy : Value → Bool
truthy null = false
truthy (bool b) = b
truthy (int n) = not (int_beq n (pos 0))
truthy (float (finite m k)) = not (int_beq m (pos 0))
truthy (float (infinite b)) = true
truthy (float nan) = true
truthy (str s) = not (s == "")
truthy (arr nil) = false
truthy (arr (cons v vs)) = true
truthy (obj end) = false
truthy (obj (field k v fs)) = true

-- value == n, for an int n
unfoldable pub equals_int : Value → ℤ → Bool
equals_int (bool true) n = int_beq (pos 1) n
equals_int (bool false) n = int_beq (pos 0) n
equals_int (int m) n = int_beq m n
equals_int (float (finite m k)) n = int_beq m (int_scale n (2 ^ k))
equals_int _ n = false

-- int(value) of a double
unfoldable pub int_of_double : Double → Result ℤ
int_of_double (finite m k) = ok (int_quot m (2 ^ k))
int_of_double (infinite b) = raise overflow_error
int_of_double nan = raise value_error

abbrev pub or_value_error {ℓ} : {A : Type ℓ} → Option A → Result A
or_value_error none = raise value_error
or_value_error (some a) = ok a

abbrev pub bool_int : Bool → ℤ
bool_int true = pos 1
bool_int false = pos 0

-- `expect_int`
unfoldable pub expect_int : Value → Result ℤ
unfolding int_of_double int_of_text
expect_int (bool b) = ok (bool_int b)
expect_int (int n) = ok n
expect_int (float d) = int_of_double d
expect_int (str s) = or_value_error (int_of_text (codes s))
expect_int null = raise type_error
expect_int (arr vs) = raise type_error
expect_int (obj fs) = raise type_error

-- `expect_dict`
unfoldable pub expect_dict : Value → Result Fields
expect_dict (obj fs) = ok fs
expect_dict _ = raise type_error

-- `expect_list`
unfoldable pub expect_list : Value → Result (List Value)
expect_list (arr vs) = ok (items vs)
expect_list _ = raise type_error

abbrev caught : Result ℤ → Result (Option ℤ)
caught (ok n) = ok (some n)
caught (raise type_error) = ok none
caught (raise value_error) = ok none
caught (raise e) = raise e

-- `_safe_int` of daemon/handlers.py: TypeError and ValueError are caught, OverflowError is not.
unfoldable pub safe_int : Value → Result (Option ℤ)
unfolding int_of_double int_of_text
safe_int null = ok none
safe_int (bool b) = ok none
safe_int (arr vs) = ok none
safe_int (obj fs) = ok none
safe_int (int n) = ok (some n)
safe_int (float d) = caught (int_of_double d)
safe_int (str s) = caught (or_value_error (int_of_text (codes s)))
