-- ===== src/Filters/Tests.antt =====
-- Runs of the filters on concrete limits and media, and the theorems at them.
use fansly_scraper.Common.{◌≡◌, refl, true, none, some, [], ◌∷◌}
use fansly_scraper.Common.Int.{pos}
use fansly_scraper.Common.Dict.{get}
use fansly_scraper.Helpers.Result.{ok, raise, config_error}
use fansly_scraper.Helpers.Text.{codes, strip, lower, creator_key}
use fansly_scraper.Helpers.Json.{int, obj, Fields, end, field, get_field}
use fansly_scraper.Filters.Media.{
  unset, named, resolution_threshold, resolution_of, MediaFilters, Override, above_size, is_active,
  size_verdict, duration_verdict, for_creator, ensure_valid,
}
use fansly_scraper.Filters.Gate.{
  resolve_media_filters, State, Media, other_type, evidence, number_of, size_evidence, check_limits,
  check_media_filters, record_filter_observation,
}
use fansly_scraper.Filters.Gate.Shortcut.{check_media_filters_lem}
use fansly_scraper.Filters.Gate.Observations.{evidence-record}

-- Alice lifts the minimum and takes 1080p at most.
abbrev alice_limits : Override
alice_limits = record {
  file_size_min = some none;
  file_size_max = some (some 900);
  duration_min = none;
  duration_max = none;
  max_resolution = some (named (codes "1080P"));
}

abbrev limits : MediaFilters
limits = record {
  file_size_min = some 100;
  file_size_max = none;
  duration_min = some 5;
  duration_max = some 60;
  max_resolution = unset;
  by_creator = (codes "alice", alice_limits) ∷ [];
}

abbrev state : State
state = record {
  download_type = other_type;
  creator_name = some (codes " @Alice");
  creator_id = some (codes "77");
}

abbrev stored : Fields
stored = field "observedContentLength" (int (pos 950)) end

abbrev video : Media
video = record {
  is_video = true;
  duration = some 30;
  has_meta = true;
  meta_info = some (obj stored);
}

too_large : check_media_filters limits state video ≡ ok (some above_size)
unfolding check_media_filters resolve_media_filters is_active for_creator get creator_key
    duration_verdict size_evidence get_field size_verdict
too_large = refl

label_in_any_case : resolution_threshold (named (codes " 4K ")) ≡ ok (some 2160)
unfolding resolution_threshold strip resolution_of get lower
label_in_any_case = refl

inverted_limits : ensure_valid (record limits { file_size_max = some 99 }) ≡ raise config_error
unfolding ensure_valid
inverted_limits = refl

limits_valid : ensure_valid limits ≡ ok tt
unfolding ensure_valid
limits_valid = refl

no_limit_active : is_active limits ≡ ok true
unfolding is_active
no_limit_active = refl

creator_active :
    is_active (for_creator limits (some (codes " @Alice")) (some (codes "77"))) ≡ ok true
unfolding is_active for_creator get creator_key
creator_active = refl

evidence_video : size_evidence video ≡ ok (some (pos 950))
unfolding size_evidence get_field
evidence_video = refl

check_media_filters_lem_example :
    check_media_filters limits state video
    ≡ check_limits (for_creator limits (some (codes " @Alice")) (some (codes "77"))) video
check_media_filters_lem_example =
    check_media_filters_lem limits state video true true (some (pos 950)) refl no_limit_active
      creator_active evidence_video

evidence-record_example :
    (size_evidence (record_filter_observation video "file_size_max" (some (pos 960)) none)
      ≡ ok (some (pos 960)))
    × (size_evidence (record_filter_observation video "file_size_max" none (some (pos 960)))
        ≡ evidence (number_of (get_field stored "observedContentLength")) (some (ok (pos 960))))
evidence-record_example = evidence-record video stored "file_size_max" (pos 960) none refl
