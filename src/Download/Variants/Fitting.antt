-- ===== src/Download/Variants/Fitting.antt =====
-- Which rendition of a media is chosen under a cap on the resolution, and when the media is refused.
use fansly_scraper.Common.{
  ℕ, ◌≤◌, ◌≡◌, ◌⊎◌, refl, subst, inl, inr, Bool, true, false, ◌&&◌, ◌||◌, is_some, Option, none,
  some, List, [], ◌∷◌, arith, All, Bool-cases,
}
use fansly_scraper.Download.Variants.{
  Rendition, Media, has_locations, fits_cap, is_known, is_eligible, filter, area, larger, largest,
  first_largest, select_best_variant, any_known_variant, Choice, from_variant, from_default,
  max_resolution, choose_from, choose_rendition,
}

largest-le :
    (best : Rendition) (vs : List Rendition)
    → (area best ≤ area (largest best vs)) × All (λ v. area v ≤ area (largest best vs)) vs
unfolding largest
largest-le best [] = (ground arith, tt)
largest-le best (v ∷ vs) =
    let rest = largest-le (larger best v) vs in
    (ground (arith, rest.0), (ground (arith, rest.0), rest.1))

-- what holds of the first and of the others holds of the largest
largest-All :
    (p : Rendition → Bool) (best : Rendition) (vs : List Rendition)
    → p best ≡ true
    → All (λ v. p v ≡ true) vs
    → p (largest best vs) ≡ true
unfolding largest
largest-All p best [] h hs = h
largest-All p best (v ∷ vs) h hs = largest-All p (larger best v) vs (ground arith) hs.1

filter-All : (p : Rendition → Bool) (vs : List Rendition) → All (λ v. p v ≡ true) (filter p vs)
filter-All p [] = tt
filter-All p (v ∷ vs) = elim (Bool-cases (p v)) [
  | inl h ↦ rw (h) (h, filter-All p vs)
  | inr h ↦ rw (h) (filter-All p vs)
]

-- Every eligible variant is at most as large.
abbrev pub IsLargest : Media → Option ℕ → Rendition → List Rendition → Type 0
IsLargest media px best [] = Unit
IsLargest media px best (v ∷ vs) =
    (is_eligible media px v ≡ false ⊎ (area v ≤ area best)) × IsLargest media px best vs

filtered-IsLargest :
    (media : Media) (px : Option ℕ) (best : Rendition) (vs : List Rendition)
    → All (λ v. area v ≤ area best) (filter (is_eligible media px) vs)
    → IsLargest media px best vs
filtered-IsLargest media px best [] h = tt
filtered-IsLargest media px best (v ∷ vs) h = elim (Bool-cases (is_eligible media px v)) [
  | inl e ↦
      let h' : All (λ w. area w ≤ area best) (v ∷ filter (is_eligible media px) vs) = rw (e) at h in
      (inr h'.0, filtered-IsLargest media px best vs h'.1)
  | inr e ↦ (inl e, filtered-IsLargest media px best vs (rw (e) at h))
]

first_largest_lem :
    (media : Media) (px : Option ℕ) (vs : List Rendition) (best : Rendition)
    → All (λ v. is_eligible media px v ≡ true) vs
    → first_largest vs ≡ some best
    → (is_eligible media px best ≡ true) × All (λ v. area v ≤ area best) vs
first_largest_lem media px [] best hs e = cc
first_largest_lem media px (v ∷ vs) best hs e =
    let same : largest v vs ≡ best = cc in
    subst (λ b. (is_eligible media px b ≡ true) × All (λ w. area w ≤ area b) (v ∷ vs)) same
      (largest-All (is_eligible media px) v vs hs.0 hs.1, largest-le v vs)

-- The variant that is selected has a location, the type of the media, and dimensions within the
-- cap where there is one, and no other such variant is larger.
pub select_best_variant_lem :
    (media : Media) (px : Option ℕ) (best : Rendition)
    → select_best_variant media px ≡ some best
    → (is_eligible media px best ≡ true) × IsLargest media px best media.variants
unfolding select_best_variant
select_best_variant_lem media px best e =
    let found =
      first_largest_lem media px (filter (is_eligible media px) media.variants) best
        (filter-All (is_eligible media px) media.variants) e in
    (found.0, filtered-IsLargest media px best media.variants found.1)

-- no variant has a location, the type of the media, and dimensions within the cap
abbrev pub NoneEligible : Media → Option ℕ → List Rendition → Type 0
NoneEligible media px vs = All (λ v. is_eligible media px v ≡ false) vs

filter-none :
    (p : Rendition → Bool) (vs : List Rendition)
    → first_largest (filter p vs) ≡ none
    → All (λ v. p v ≡ false) vs
filter-none p [] h = tt
filter-none p (v ∷ vs) h = elim (Bool-cases (p v)) [
  | inl e ↦ absurd (ground (arith, h, e))
  | inr e ↦ (e, filter-none p vs (rw (e) at h))
]

-- The dimensions of what is chosen fit the cap, or nothing is known that could be compared. What is
-- refused has a cap, something known to compare with it, no eligible variant, and no default that fits
-- and has a location.
abbrev pub IsWithin : Media → Option ℕ → Choice → Type 0
IsWithin media px (from_variant v) = fits_cap v.width v.height px ≡ true
IsWithin media px (from_default url) =
    (fits_cap media.default.width media.default.height px ≡ true)
    ⊎ ((is_known media.default ≡ false) × (any_known_variant media ≡ false))
IsWithin media px max_resolution =
    (is_some px ≡ true)
    × (is_known media.default || any_known_variant media ≡ true)
    × NoneEligible media px media.variants
    × (fits_cap media.default.width media.default.height px && has_locations media.default.locations
        ≡ false)

choose_from-IsWithin :
    (media : Media) (px : Option ℕ) (best : Option Rendition)
    → ((v : Rendition) → best ≡ some v → fits_cap v.width v.height px ≡ true)
    → (best ≡ none → NoneEligible media px media.variants)
    → IsWithin media px (choose_from media px best)
choose_from-IsWithin media px (some v) h k = ground (arith, h v refl)
choose_from-IsWithin media px none h k =
    let fits = fits_cap media.default.width media.default.height px in
    let kept = fits && has_locations media.default.locations in
    elim (Bool-cases kept) [
      | inl e ↦ rw (e) (inl (ground (arith, e)))
      | inr e ↦
          elim (Bool-cases (is_some px && (is_known media.default || any_known_variant media))) [
            | inl f ↦ rw (e, f) (ground (arith, f), ground (arith, f), k refl, e)
            | inr f ↦ rw (e, f) (unfold fits_cap in ground (arith, f))
          ]
    ]

-- A variant that is chosen fits the cap. The default location is taken unfitting only if neither it
-- nor any variant of its type has a location and known dimensions. The media is refused only if there
-- is a cap, the default or a variant of its type has a location and known dimensions, no variant of its
-- type with a location fits the cap, and the default does not fit it or has no location.
pub choose_rendition-IsWithin :
    (media : Media) (px : Option ℕ) → IsWithin media px (choose_rendition media px)
unfolding choose_rendition select_best_variant
choose_rendition-IsWithin media px =
    choose_from-IsWithin media px (select_best_variant media px)
      (λ v e. ground (arith, (select_best_variant_lem media px v e).0))
      (λ e. filter-none (is_eligible media px) media.variants e)
