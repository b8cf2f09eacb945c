-- ===== src/Download/Variants/Tests.antt =====
-- A video with two variants under a cap, and the theorems at it.
use fansly_scraper.Common.{ℕ, ◌≡◌, refl, true, none, some, List, [], ◌∷◌}
use fansly_scraper.Helpers.Text.{Text, codes}
use fansly_scraper.Download.Variants.{
  Location, Rendition, Media, fits_cap, simplify_mimetype, is_eligible, select_best_variant,
  from_variant, max_resolution, choose_rendition,
}
use fansly_scraper.Download.Variants.Fitting.{
  IsLargest, IsWithin, select_best_variant_lem, choose_rendition-IsWithin,
}

abbrev somewhere : List Location
somewhere = record { raw_url = none; location = some (codes "https://cdn/a.mp4") } ∷ []

abbrev rendition : ℕ → Text → ℕ → ℕ → Rendition
rendition id mimetype w h = record {
  id = id;
  mimetype = mimetype;
  width = some w;
  height = some h;
  locations = somewhere;
}

abbrev small : Rendition
small = rendition 2 (codes "video/mp4") 640 360

abbrev middle : Rendition
middle = rendition 3 (codes "application/vnd.apple.mpegurl") 1280 720

abbrev video : Media
video = record {
  default = rendition 1 (codes "video/mp4") 1920 1080;
  variants = small ∷ middle ∷ [];
}

capped : select_best_variant video (some 720) ≡ some middle
unfolding select_best_variant fits_cap simplify_mimetype
capped = refl

chosen : choose_rendition video (some 720) ≡ from_variant middle
unfolding choose_rendition fits_cap simplify_mimetype
chosen = refl

refused : choose_rendition video (some 240) ≡ max_resolution
unfolding choose_rendition fits_cap simplify_mimetype
refused = refl

select_best_variant_lem_example :
    (is_eligible video (some 720) middle ≡ true)
    × IsLargest video (some 720) middle (small ∷ middle ∷ [])
select_best_variant_lem_example = select_best_variant_lem video (some 720) middle capped

choose_rendition-IsWithin_example : IsWithin video (some 720) (choose_rendition video (some 720))
choose_rendition-IsWithin_example = choose_rendition-IsWithin video (some 720)
