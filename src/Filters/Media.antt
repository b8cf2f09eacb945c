-- ===== src/Filters/Media.antt =====
-- config/media_filters.py: the limits on media, per creator. Sizes are whole bytes; durations are
-- whole ticks of a unit that is finer than any configured value.
pub mod Resolve
use fansly_scraper.Common.{
  ℕ, zero, suc, ◌*◌, ◌+◌, ◌-◌, Bool, true, false, not, ◌&&◌, ◌||◌, Option, none, some, List, [],
  ◌∷◌, ltb, leb, nat_beq, is_some, all, length, min, if◌then◌else◌,
}
use fansly_scraper.Common.Int.{ℤ, pos, negsuc, int_ltb}
use fansly_scraper.Common.Classes.{◌==◌, codes_keyed}
use fansly_scraper.Common.Dict.{Dict, get}
use fansly_scraper.Helpers.Result.{Result, ok, raise, config_error, value_error, ◌>>=◌}
use fansly_scraper.Helpers.Text.{Text, codes, strip, lower, creator_key, is_digits}

-- `Resolution`
pub data Resolution : Type 0 where
  p240 p360 p480 p720 p1080 p1440 uhd : Resolution

unfoldable pub dimensions : Resolution → ℕ × ℕ
dimensions p240 = (426, 240)
dimensions p360 = (640, 360)
dimensions p480 = (854, 480)
dimensions p720 = (1280, 720)
dimensions p1080 = (1920, 1080)
dimensions p1440 = (2560, 1440)
dimensions uhd = (3840, 2160)

unfoldable pub threshold : Resolution → ℕ
unfolding dimensions
threshold r = min (dimensions r).0 (dimensions r).1

abbrev pub labels : Dict Text Resolution
labels =
    (codes "240p", p240)
    ∷ (codes "360p", p360)
    ∷ (codes "480p", p480)
    ∷ (codes "720p", p720)
    ∷ (codes "1080p", p1080)
    ∷ (codes "1440p", p1440)
    ∷ (codes "4k", uhd)
    ∷ (codes "2160p", uhd)
    ∷ []

-- `Resolution(text)`: the label in any case, or the alias "2160p"; `none` is a ValueError
unfoldable pub resolution_of : Text → Option Resolution
resolution_of text = get labels (lower text)

-- A `max_resolution` as it is written: None, a Boolean, an integer, a text, or anything else.
pub data Limit : Type 0 where
  unset : Limit
  flag : Bool → Limit
  pixels : ℤ → Limit
  named : Text → Limit
  other : Limit

-- int(text) of a text of digits; more than 4300 of them are a ValueError
abbrev pub digits_value : ℕ → Text → ℕ
digits_value n [] = n
digits_value n (c ∷ cs) = digits_value (n * 10 + (c - b'0')) cs

-- `value or None`
abbrev pub nonzero : ℕ → Option ℕ
nonzero zero = none
nonzero (suc n) = some (suc n)

abbrev pub named_threshold : Text → Option Resolution → Result (Option ℕ)
named_threshold text (some r) = ok (some (threshold r))
named_threshold text none =
    if is_digits text
    then (if ltb 4300 (length text) then raise value_error else ok (nonzero (digits_value 0 text)))
    else raise config_error

abbrev pub is_empty_text : Text → Bool
is_empty_text [] = true
is_empty_text (c ∷ cs) = false

unfoldable pub resolution_threshold : Limit → Result (Option ℕ)
unfolding threshold
resolution_threshold unset = ok none
resolution_threshold (flag b) = raise config_error
resolution_threshold (pixels (negsuc n)) = raise config_error
resolution_threshold (pixels (pos n)) = ok (nonzero n)
resolution_threshold (named text) =
    if is_empty_text (strip text)
    then ok none
    else named_threshold (strip text) (resolution_of (strip text))
resolution_threshold other = raise config_error

-- `MediaFilterOverride`: a field is in `model_fields_set` if it is given, and then it may be None.
pub record Override : Type 0 where
  pub file_size_min : Option (Option ℕ)
  pub file_size_max : Option (Option ℕ)
  pub duration_min : Option (Option ℕ)
  pub duration_max : Option (Option ℕ)
  pub max_resolution : Option Limit

-- `MediaFilters`
pub record MediaFilters : Type 0 where
  pub file_size_min : Option ℕ
  pub file_size_max : Option ℕ
  pub duration_min : Option ℕ
  pub duration_max : Option ℕ
  pub max_resolution : Limit
  pub by_creator : Dict Text Override

-- the names of the limits that are reported
pub data Reason : Type 0 where
  below_size above_size below_duration above_duration : Reason

-- `any(...) or self.max_resolution_px is not None`: the resolution is read only if nothing is set
unfoldable pub is_active : MediaFilters → Result Bool
is_active f =
    if is_some f.file_size_min
      || is_some f.file_size_max
      || is_some f.duration_min
      || is_some f.duration_max
    then ok true
    else do px ← resolution_threshold f.max_resolution; ok (is_some px)

-- The limit is set, and the size, which a payload may give as a negative number, lies below it
-- (above it).
abbrev pub size_below : Option ℕ → ℤ → Bool
size_below none n = false
size_below (some limit) n = int_ltb n (pos limit)

abbrev pub size_above : Option ℕ → ℤ → Bool
size_above none n = false
size_above (some limit) n = int_ltb (pos limit) n

abbrev pub below : Option ℕ → ℕ → Bool
below none n = false
below (some limit) n = ltb n limit

abbrev pub above : Option ℕ → ℕ → Bool
above none n = false
above (some limit) n = ltb limit n

unfoldable pub size_verdict : MediaFilters → Option ℤ → Option Reason
size_verdict f none = none
size_verdict f (some size) =
    if size_below f.file_size_min size
    then some below_size
    else if size_above f.file_size_max size
    then some above_size
    else none

unfoldable pub duration_verdict : MediaFilters → Option ℕ → Option Reason
duration_verdict f none = none
duration_verdict f (some duration) =
    if below f.duration_min duration
    then some below_duration
    else if above f.duration_max duration
    then some above_duration
    else none

abbrev pub given {ℓ} : {A : Type ℓ} → Option A → A → A
given none a = a
given (some b) a = b

abbrev pub without_overrides : MediaFilters → MediaFilters
without_overrides f = record f { by_creator = [] }

abbrev pub apply_override : MediaFilters → Option Override → MediaFilters
apply_override f none = without_overrides f
apply_override f (some o) = record {
  file_size_min = given o.file_size_min f.file_size_min;
  file_size_max = given o.file_size_max f.file_size_max;
  duration_min = given o.duration_min f.duration_min;
  duration_max = given o.duration_max f.duration_max;
  max_resolution = given o.max_resolution f.max_resolution;
  by_creator = [];
}

-- `if username:`
abbrev pub by_name : Dict Text Override → Option Text → Option Override
by_name d none = none
by_name d (some []) = none
by_name d (some (c ∷ cs)) = get d (creator_key (c ∷ cs))

-- `if override is None and creator_id is not None:`, with `str(creator_id)` the text of the id
abbrev pub by_id : Dict Text Override → Option Text → Option Override
by_id d none = none
by_id d (some id) = get d id

abbrev pub or_else {ℓ} : {A : Type ℓ} → Option A → Option A → Option A
or_else none o = o
or_else (some a) o = some a

unfoldable pub for_creator : MediaFilters → Option Text → Option Text → MediaFilters
for_creator f username creator_id =
    apply_override f (or_else (by_name f.by_creator username) (by_id f.by_creator creator_id))

-- a minimum that exceeds its maximum
abbrev pub exceeds : Option ℕ → Option ℕ → Bool
exceeds none hi = false
exceeds (some lo) none = false
exceeds (some lo) (some hi) = ltb hi lo

unfoldable pub ensure_valid : MediaFilters → Result (Unit {0})
ensure_valid f =
    if exceeds f.file_size_min f.file_size_max
    then raise config_error
    else if exceeds f.duration_min f.duration_max
    then raise config_error
    else ok tt
