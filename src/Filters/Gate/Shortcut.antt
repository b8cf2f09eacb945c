-- ===== src/Filters/Gate/Shortcut.antt =====
-- The early returns of the gate change no verdict.
use fansly_scraper.Common.{◌≡◌, Bool, false, Option, none, [], ◌∷◌, arith}
use fansly_scraper.Common.Int.{ℤ}
use fansly_scraper.Common.Dict.{Dict, get}
use fansly_scraper.Common.Classes.{codes_keyed}
use fansly_scraper.Helpers.Result.{ok}
use fansly_scraper.Helpers.Text.{Text}
use fansly_scraper.Filters.Media.{
  MediaFilters, Override, is_active, size_verdict, duration_verdict, for_creator, or_else, by_name,
  by_id,
}
use fansly_scraper.Filters.Media.Resolve.{no_name, no_id}
use fansly_scraper.Filters.Gate.{
  State, Media, is_single, has_overrides, resolve_media_filters, size_evidence, check_limits,
  check_media_filters,
}

-- Filters without a limit pass every media whose size evidence can be read.
inactive_passes :
    (f : MediaFilters) (media : Media) (size : Option ℤ)
    → is_active f ≡ ok false
    → size_evidence media ≡ ok size
    → check_limits f media ≡ ok none
unfolding is_active check_limits size_verdict duration_verdict
inactive_passes f media size inactive e = ground arith

no_override :
    (d : Dict Text Override) (name id : Option Text)
    → has_overrides d ≡ false
    → or_else (by_name d name) (by_id d id) ≡ none
no_override [] name id h = rw (no_name name, no_id id)
no_override (o ∷ os) name id h = cc

-- without overrides, resolving changes no limit
for_creator-active :
    (f : MediaFilters) (name id : Option Text)
    → has_overrides f.by_creator ≡ false
    → is_active (for_creator f name id) ≡ is_active f
unfolding for_creator is_active get
for_creator-active f name id h = rw (no_override f.by_creator name id h)

-- For every download that is not of a single post: if the configured resolutions and the size
-- evidence can be read, the gate gives the verdict that the limits of the creator give, whether
-- or not it returns early because no limit is set.
pub check_media_filters_lem :
    (f : MediaFilters) (state : State) (media : Media) (some_limit creator_limit : Bool)
    (size : Option ℤ)
    → is_single state.download_type ≡ false
    → is_active f ≡ ok some_limit
    → is_active (for_creator f state.creator_name state.creator_id) ≡ ok creator_limit
    → size_evidence media ≡ ok size
    → check_media_filters f state media
      ≡ check_limits (for_creator f state.creator_name state.creator_id) media
unfolding check_media_filters resolve_media_filters
check_media_filters_lem f state media a b size multi act act' e =
    let f' = for_creator f state.creator_name state.creator_id in
    ground (
      arith,
      inactive_passes f' media size,
      for_creator-active f state.creator_name state.creator_id,
    )
