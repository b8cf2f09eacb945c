-- ===== src/Filters/Gate.antt =====
-- download/mediafilters.py: the gate before a download. `meta_info` is what `json.loads` makes of
-- the text, if anything; a duration of `f` ticks is `f / unit` seconds.
pub mod Shortcut
pub mod Observations
use fansly_scraper.Common.{
  ℕ, zero, suc, ◌*◌, ◌/◌, ◌+◌, Bool, true, false, not, ◌&&◌, ◌||◌, Option, none, some, List, [],
  ◌∷◌, ltb, is_some, nat_beq, String, if◌then◌else◌,
}
use fansly_scraper.Common.Int.{ℤ, pos}
use fansly_scraper.Common.Dict.{Dict}
use fansly_scraper.Common.Classes.{◌==◌, string_keyed}
use fansly_scraper.Helpers.Result.{Result, ok, raise, filtered, ◌>>=◌}
use fansly_scraper.Helpers.Text.{Text, codes}
use fansly_scraper.Helpers.Json.{
  Value, null, bool, int, float, str, arr, obj, Fields, end, field, get_field, int_of_double,
}
use fansly_scraper.Filters.Media.{
  MediaFilters, Override, Reason, below_size, above_size, below_duration, above_duration, is_active,
  size_verdict, duration_verdict, for_creator,
}

-- `DownloadType`, as far as the gate tells the types apart
pub data DownloadType : Type 0 where
  single other_type : DownloadType

abbrev pub is_single : DownloadType → Bool
is_single single = true
is_single other_type = false

-- the fields of `DownloadState` that the gate reads; the id as its text
pub record State : Type 0 where
  pub download_type : DownloadType
  pub creator_name : Option Text
  pub creator_id : Option Text

-- the fields of `Media` that the gate reads and writes
pub record Media : Type 0 where
  pub is_video : Bool
  pub duration : Option ℕ
  pub has_meta : Bool
  pub meta_info : Option Value

abbrev pub has_overrides : Dict Text Override → Bool
has_overrides [] = false
has_overrides (o ∷ os) = true

abbrev pub if_active : MediaFilters → Result Bool → Result (Option MediaFilters)
if_active f active = do a ← active; ok (if a then some f else none)

unfoldable pub resolve_media_filters : MediaFilters → State → Result (Option MediaFilters)
resolve_media_filters f state = if is_single state.download_type then ok none else do
  active ← is_active f
  let resolved = for_creator f state.creator_name state.creator_id
  if not active && not (has_overrides f.by_creator)
      then ok none
      else if_active resolved (is_active resolved)

-- an int or a float that is no Boolean, as an int
abbrev pub number_of : Option Value → Option (Result ℤ)
number_of (some (int n)) = some (ok n)
number_of (some (float d)) = some (int_of_double d)
number_of _ = none

abbrev pub evidence : Option (Result ℤ) → Option (Result ℤ) → Result (Option ℤ)
evidence (some r) other = do n ← r; ok (some n)
evidence none (some r) = do n ← r; ok (some n)
evidence none none = ok none

unfoldable pub size_of_payload : Option Value → Result (Option ℤ)
size_of_payload (some (obj fs)) =
    evidence (number_of (get_field fs "observedContentLength"))
      (number_of (get_field fs "estimatedContentLength"))
size_of_payload _ = ok none

-- `_size_evidence`
unfoldable pub size_evidence : Media → Result (Option ℤ)
unfolding size_of_payload
size_evidence media = if media.has_meta then size_of_payload media.meta_info else ok none

abbrev pub or_size : Option Reason → Result (Option Reason) → Result (Option Reason)
or_size none size = size
or_size (some reason) size = ok (some reason)

abbrev pub size_check : MediaFilters → Media → Result (Option Reason)
size_check f media = do size ← size_evidence media; ok (size_verdict f size)

unfoldable pub check_limits : MediaFilters → Media → Result (Option Reason)
check_limits f media =
    or_size (if media.is_video then duration_verdict f media.duration else none)
      (size_check f media)

abbrev pub check_resolved : Media → Option MediaFilters → Result (Option Reason)
check_resolved media none = ok none
check_resolved media (some f) = check_limits f media

unfoldable pub check_media_filters : MediaFilters → State → Media → Result (Option Reason)
unfolding check_limits
check_media_filters f state media = resolve_media_filters f state >>= check_resolved media

-- payload[key] = value
unfoldable pub set_field : Fields → String → Value → Fields
set_field end k v = field k v end
set_field (field j w fs) k v = if j == k then field j v fs else field j w (set_field fs k v)

abbrev pub set_given : Fields → String → Option ℤ → Fields
set_given fs k none = fs
set_given fs k (some n) = set_field fs k (int n)

abbrev pub payload_of : Bool → Option Value → Option Value
payload_of false v = some (obj end)
payload_of true v = v

abbrev pub observed_fields : Fields → String → Option ℤ → Option ℤ → Fields
observed_fields fs reason observed estimated =
    set_given
      (set_given (set_field fs "lastFilteredReason" (str reason)) "observedContentLength" observed)
      "estimatedContentLength" estimated

-- The merge of an observation; a payload that is no object is left alone.
abbrev pub merge : Media → String → Option ℤ → Option ℤ → Option Value → Media
merge media reason observed estimated (some (obj fs)) = record media {
  has_meta = true;
  meta_info = some (obj (observed_fields fs reason observed estimated));
}
merge media reason observed estimated _ = media

unfoldable pub record_filter_observation : Media → String → Option ℤ → Option ℤ → Media
unfolding set_field
record_filter_observation media reason observed estimated =
    merge media reason observed estimated (payload_of media.has_meta media.meta_info)
