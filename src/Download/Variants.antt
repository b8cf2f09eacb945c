-- ===== src/Download/Variants.antt =====
-- media/media.py: which rendition of a media is downloaded. Widths and heights are not negative.
pub mod Fitting
pub mod Tests
use fansly_scraper.Common.{
  ℕ, zero, suc, ◌*◌, min, Bool, true, false, not, ◌&&◌, ◌||◌, Option, none, some, List, [], ◌∷◌,
  ltb, leb, any, is_some, if◌then◌else◌,
}
use fansly_scraper.Common.Classes.{◌==◌, codes_keyed}
use fansly_scraper.Helpers.Text.{Text, codes}

-- a location of a rendition: its address with and without the parameters of the CDN
pub record Location : Type 0 where
  pub raw_url : Option Text
  pub location : Option Text

-- a variant, and the fields of the media itself
pub record Rendition : Type 0 where
  pub id : ℕ
  pub mimetype : Text
  pub width : Option ℕ
  pub height : Option ℕ
  pub locations : List Location

pub record Media : Type 0 where
  pub default : Rendition
  pub variants : List Rendition

unfoldable pub simplify_mimetype : Text → Text
simplify_mimetype mimetype =
    if mimetype == codes "application/vnd.apple.mpegurl"
    then codes "video/mp4"
    else if mimetype == codes "audio/mp4"
    then codes "audio/mp3"
    else mimetype

-- `a or b` on texts, and `bool(text)`
abbrev pub or_text : Option Text → Option Text → Option Text
or_text (some (c ∷ cs)) other = some (c ∷ cs)
or_text _ other = other

abbrev pub has_text : Option Text → Bool
has_text (some (c ∷ cs)) = true
has_text _ = false

unfoldable pub best_location_url : List Location → Option Text
best_location_url [] = none
best_location_url (l ∷ ls) = or_text l.raw_url l.location

abbrev pub has_locations : List Location → Bool
has_locations [] = false
has_locations (l ∷ ls) = true

-- `_fits_cap`
unfoldable pub fits_cap : Option ℕ → Option ℕ → Option ℕ → Bool
fits_cap width height none = true
fits_cap none height (some px) = false
fits_cap (some w) none (some px) = false
fits_cap (some w) (some h) (some px) = leb (min w h) px

abbrev pub is_known : Rendition → Bool
is_known v = is_some v.width && is_some v.height && has_locations v.locations

abbrev pub is_like : Media → Rendition → Bool
is_like media v = simplify_mimetype v.mimetype == simplify_mimetype media.default.mimetype

abbrev pub is_eligible : Media → Option ℕ → Rendition → Bool
is_eligible media px v =
    has_locations v.locations && is_like media v && fits_cap v.width v.height px

abbrev pub filter : (Rendition → Bool) → List Rendition → List Rendition
filter p [] = []
filter p (v ∷ vs) = let rest = filter p vs in if p v then v ∷ rest else rest

-- `(v.width or 0) * (v.height or 0)`
abbrev pub or_zero : Option ℕ → ℕ
or_zero none = 0
or_zero (some n) = n

abbrev pub area : Rendition → ℕ
area v = or_zero v.width * or_zero v.height

-- `max(..., key=...)`: the first of the largest
abbrev pub larger : Rendition → Rendition → Rendition
larger best v = if ltb (area best) (area v) then v else best

unfoldable pub largest : Rendition → List Rendition → Rendition
largest best [] = best
largest best (v ∷ vs) = largest (larger best v) vs

abbrev pub first_largest : List Rendition → Option Rendition
first_largest [] = none
first_largest (v ∷ vs) = some (largest v vs)

-- `_select_best_variant`
unfoldable pub select_best_variant : Media → Option ℕ → Option Rendition
unfolding largest
select_best_variant media px = first_largest (filter (is_eligible media px) media.variants)

-- `_any_known_variant`
unfoldable pub any_known_variant : Media → Bool
any_known_variant media = any (λ v. is_known v && is_like media v) media.variants

-- What is downloaded: a variant, the default location (which may have no address), or nothing,
-- since no rendition fits the cap.
pub data Choice : Type 0 where
  from_variant : Rendition → Choice
  from_default : Option Text → Choice
  max_resolution : Choice

abbrev pub default_url : Media → Option ℕ → Option Text
default_url media px =
    if fits_cap media.default.width media.default.height px
    then best_location_url media.default.locations
    else none

-- the default where it is higher than the variant, or where there is no variant
abbrev pub prefer : Media → Option ℕ → Option Rendition → Choice
prefer media px none =
    from_default (if has_text (default_url media px) then default_url media px else none)
prefer media px (some best) =
    if has_text (default_url media px) && ltb (or_zero best.height) (or_zero media.default.height)
    then from_default (default_url media px)
    else from_variant best

abbrev pub choose_from : Media → Option ℕ → Option Rendition → Choice
choose_from media px best =
    if is_some best
      || fits_cap media.default.width media.default.height px
        && has_locations media.default.locations
    then prefer media px best
    else if is_some px && (is_known media.default || any_known_variant media)
    then max_resolution
    else from_default (best_location_url media.default.locations)

-- the choice of `parse_media_info`
unfoldable pub choose_rendition : Media → Option ℕ → Choice
unfolding select_best_variant any_known_variant fits_cap best_location_url
choose_rendition media px = choose_from media px (select_best_variant media px)
