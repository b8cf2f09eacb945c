-- ===== src/Filters/Gate/Observations.antt =====
-- What the gate records of a download is what it reads the next time.
use text.Mathlib.TextEquality.{eq_iff}
use fansly_scraper.Common.{◌≡◌, refl, ◌∙◌, Option, none, some, arith, String, if◌then◌else◌}
use fansly_scraper.Common.Int.{ℤ}
use fansly_scraper.Common.Classes.{◌==◌, string_keyed}
use fansly_scraper.Helpers.Result.{ok}
use fansly_scraper.Helpers.Json.{Value, int, obj, str, Fields, end, field, get_field}
use fansly_scraper.Filters.Gate.{
  Media, number_of, evidence, size_evidence, set_field, set_given, observed_fields, payload_of,
  record_filter_observation,
}

get_field-set_field :
    (fs : Fields) (k j : String) (v : Value)
    → get_field (set_field fs k v) j ≡ (if k == j then some v else get_field fs j)
unfolding get_field set_field
get_field-set_field end k j v = refl
get_field-set_field (field i w fs) k j v =
    ground (arith, get_field-set_field fs k j v, eq_iff i k, eq_iff i j, eq_iff k j)

set_given-frame :
    (fs : Fields) (estimated : Option ℤ)
    → get_field (set_given fs "estimatedContentLength" estimated) "observedContentLength"
      ≡ get_field fs "observedContentLength"
set_given-frame fs none = refl
set_given-frame fs (some n) =
    get_field-set_field fs "estimatedContentLength" "observedContentLength" (int n)

lookup_observed :
    (fs : Fields) (reason : String) (n : ℤ) (estimated : Option ℤ)
    → get_field (observed_fields fs reason (some n) estimated) "observedContentLength"
      ≡ some (int n)
lookup_observed fs reason n estimated =
    let written = set_field fs "lastFilteredReason" (str reason) in
    set_given-frame (set_field written "observedContentLength" (int n)) estimated
    ∙ get_field-set_field written "observedContentLength" "observedContentLength" (int n)

lookup_unobserved :
    (fs : Fields) (reason : String) (estimated : Option ℤ)
    → get_field (observed_fields fs reason none estimated) "observedContentLength"
      ≡ get_field fs "observedContentLength"
lookup_unobserved fs reason estimated =
    set_given-frame (set_field fs "lastFilteredReason" (str reason)) estimated
    ∙ get_field-set_field fs "lastFilteredReason" "observedContentLength" (str reason)

lookup_estimated :
    (fs : Fields) (reason : String) (n : ℤ)
    → get_field (observed_fields fs reason none (some n)) "estimatedContentLength" ≡ some (int n)
lookup_estimated fs reason n =
    get_field-set_field (set_field fs "lastFilteredReason" (str reason)) "estimatedContentLength"
      "estimatedContentLength" (int n)

-- If the stored payload is missing or an object, the size evidence after an observation is the
-- observed length, whatever was stored or estimated; if only an estimate is recorded, an observed
-- length that was stored before stays the evidence, and without one the estimate is.
pub evidence-record :
    (media : Media) (fs : Fields) (reason : String) (n : ℤ) (estimated : Option ℤ)
    → payload_of media.has_meta media.meta_info ≡ some (obj fs)
    → (size_evidence (record_filter_observation media reason (some n) estimated) ≡ ok (some n))
      × (size_evidence (record_filter_observation media reason none (some n))
          ≡ evidence (number_of (get_field fs "observedContentLength")) (some (ok n)))
unfolding record_filter_observation size_evidence
evidence-record media fs reason n estimated stored = (
  rw (stored, lookup_observed fs reason n estimated) refl,
  rw (stored, lookup_unobserved fs reason (some n), lookup_estimated fs reason n) refl,
)
