-- ===== src/Filters/Media/Resolve.antt =====
-- The limits of a creator, and which limits can be met.
use fansly_scraper.Common.{ℕ, ◌<◌, ◌≡◌, refl, ◌↔◌, Option, none, some, [], ◌∷◌, arith}
use fansly_scraper.Common.Int.{ℤ, pos}
use fansly_scraper.Common.Dict.{get}
use fansly_scraper.Common.Classes.{codes_keyed}
use fansly_scraper.Helpers.Result.{ok}
use fansly_scraper.Helpers.Text.{Text}
use fansly_scraper.Filters.Media.{
  Limit, resolution_threshold, MediaFilters, Override, ensure_valid, size_verdict, duration_verdict,
  apply_override, or_else, by_name, by_id, for_creator,
}

pub no_name : (name : Option Text) → by_name [] name ≡ none
unfolding get
no_name none = refl
no_name (some []) = refl
no_name (some (c ∷ cs)) = refl

pub no_id : (id : Option Text) → by_id [] id ≡ none
unfolding get
no_id none = refl
no_id (some i) = refl

resolved_again :
    (f : MediaFilters) (o : Option Override) (name id : Option Text)
    → for_creator (apply_override f o) name id ≡ apply_override f o
unfolding for_creator
resolved_again f none name id = rw (no_name name, no_id id)
resolved_again f (some o) name id = rw (no_name name, no_id id)

-- Resolving the limits of a creator twice, even for another creator the second time, is resolving
-- them once: what is resolved carries no overrides.
pub for_creator-for_creator :
    (f : MediaFilters) (name id name' id' : Option Text)
    → for_creator (for_creator f name id) name' id' ≡ for_creator f name id
for_creator-for_creator f name id name' id' =
    unfold for_creator in
    resolved_again f (or_else (by_name f.by_creator name) (by_id f.by_creator id)) name' id'

-- The least value that a minimum allows.
abbrev pub least : Option ℕ → ℕ
least none = 0
least (some n) = n

-- `ensure_valid` accepts exactly the limits that some size and some duration can meet.
pub ensure_valid_iff :
    (f : MediaFilters)
    → (ensure_valid f ≡ ok tt) ↔ (
        (n : ℤ) × (d : ℕ) × (size_verdict f (some n) ≡ none) × (duration_verdict f (some d) ≡ none))
unfolding ensure_valid size_verdict duration_verdict
ensure_valid_iff f = (
  λ valid. (pos (least f.file_size_min), least f.duration_min, ground arith, ground arith),
  λ met. ground arith,
)

-- A resolution limit that is set is positive: zero, None and the empty text disable it.
pub resolution_threshold_pos :
    (limit : Limit) (n : ℕ) → resolution_threshold limit ≡ ok (some n) → 0 < n
unfolding resolution_threshold
resolution_threshold_pos limit n h = ground arith
