-- ===== src/Helpers/Timestamp.antt =====
-- `parse_timestamp` of helpers/common.py, over an interface to Python's `datetime`.
use fansly_scraper.Common.{◌^◌, Bool, false, not, Option, none, some, String}
use fansly_scraper.Common.Int.{ℤ, pos, int_ltb, int_scale}
use fansly_scraper.Helpers.Result.{Result, ok, ◌>>=◌}
use fansly_scraper.Helpers.Json.{
  Double, finite, infinite, nan, Value, null, bool, int, float, str, arr, obj, bool_int,
}

-- `fromtimestamp(v, UTC)` of a number, divided by 1000 first if the flag is set, `fromisoformat`
-- of a text after "Z" is replaced by "+00:00", and `>` on instants, which raises when only one of
-- the two carries a time zone.
pub record Datetime : Type 1 where
  pub Instant : Type 0
  pub from_int : Bool → ℤ → Result Instant
  pub from_float : Bool → Double → Result Instant
  pub from_iso : String → Result Instant
  pub later : Instant → Instant → Result Bool

-- v > 1e10
abbrev pub is_millis : ℤ → Bool
is_millis n = int_ltb (pos 10000000000) n

abbrev pub is_millis_double : Double → Bool
is_millis_double (finite m k) = int_ltb (int_scale (pos 10000000000) (2 ^ k)) m
is_millis_double (infinite negative) = not negative
is_millis_double nan = false

abbrev instant_of {ℓ} : {I : Type ℓ} → Result I → Result (Option I)
instant_of r = do i ← r; ok (some i)

module _ (dt : Datetime) where
  open dt use {Instant, from_int, from_float, from_iso}

  -- `none`: the value comes back unchanged, and is no datetime.
  unfoldable pub parse_timestamp : Value → Result (Option Instant)
  parse_timestamp null = ok none
  parse_timestamp (bool b) = instant_of (from_int false (bool_int b))
  parse_timestamp (int n) = instant_of (from_int (is_millis n) n)
  parse_timestamp (float d) = instant_of (from_float (is_millis_double d) d)
  parse_timestamp (str s) = instant_of (from_iso s)
  parse_timestamp (arr vs) = ok none
  parse_timestamp (obj fs) = ok none
