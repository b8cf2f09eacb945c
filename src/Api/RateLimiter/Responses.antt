-- ===== src/Api/RateLimiter/Responses.antt =====
-- What responses make of the back-off.
use fansly_scraper.Common.{
  ℕ, suc, ◌+◌, ◌≡◌, refl, ap, ◌∙◌, Bool, true, false, not, ◌&&◌, Option, none, some, List, [], ◌∷◌,
  arith, leb, ltb, nat_beq, length, is_some, if◌then◌else◌,
}
use fansly_scraper.Helpers.Result.{overflow_error, zero_division}
use fansly_scraper.Helpers.Floating.{
  Floating, lte, lt, lit, nil, fmax, fmax-left, fmax-right, fmax-lub,
}
use fansly_scraper.Api.RateLimiter.{RateLimiter, calculate_minimum_floor}
use fansly_scraper.Api.RateLimiter.Backoff.{
  backoff_of, counted_success, on_reduction, apply_adaptive_backoff,
}
use fansly_scraper.Api.RateLimiter.Calls.{record_outcome, record_response}
use fansly_scraper.Api.RateLimiter.Tokens.{violation_starts}

module _ {F : Type 0} ⦃N : Floating F⦄ where
  -- The responses after which the source divides the back-off.
  abbrev pub is_reduction : RateLimiter F → ℕ → Bool
  is_reduction s status =
      leb 200 status
      && ltb status 300
      && lt nil s.current_backoff_seconds
      && leb 1 s.consecutive_successes

  -- Recording a response raises OverflowError exactly if the limiter and adaptive limiting are on,
  -- the status is 429 and the power of the back-off factor overflows; it raises ZeroDivisionError
  -- exactly if both are on, the status is a success that follows another one while a back-off is
  -- set, and Python refuses to divide by the back-off factor. It raises nothing else.
  pub record_response_raises :
      (s : RateLimiter F) (status : ℕ) (now : F)
      → let overflows =
          s.options.enabled
          && s.options.adaptive
          && nat_beq status 429
          && not (is_some (N.power s.options.backoff_factor s.consecutive_violations)) in
        let divides =
          s.options.enabled
          && s.options.adaptive
          && is_reduction s status
          && not (is_some (N.over s.current_backoff_seconds s.options.backoff_factor)) in
        (record_response s status now).1
        ≡ (if overflows then some overflow_error else if divides then some zero_division else none)
  unfolding record_response apply_adaptive_backoff calculate_minimum_floor
  record_response_raises s status now = ground arith

  -- responses 429, one at each reading of the clock
  unfoldable pub violate : RateLimiter F → List F → RateLimiter F
  violate s [] = s
  violate s (now ∷ clock) = violate (record_response s 429 now).0 clock

  -- the powers of the factor, none of which overflows
  abbrev pub HasPowers : F → (ℕ → F) → Type 0
  HasPowers factor powers = (k : ℕ) → N.power factor k ≡ some (powers k)

  violation_counts :
      (s : RateLimiter F) (powers : ℕ → F) (now : F)
      → s.options.enabled ≡ true
      → s.options.adaptive ≡ true
      → HasPowers s.options.backoff_factor powers
      → let s' = (record_response s 429 now).0 in
        (s'.options ≡ s.options)
        × (s'.rate_limit_violations ≡ suc s.rate_limit_violations)
        × (s'.consecutive_violations ≡ suc s.consecutive_violations)
        × (s'.current_backoff_seconds ≡ backoff_of s.options (powers s.consecutive_violations))
        × (s'.tokens ≡ nil)
  violation_counts s powers now enabled adaptive h =
      let after =
        violation_starts s now (powers s.consecutive_violations) enabled adaptive
          (h s.consecutive_violations) in
      (
        ap (λ r. r.0.options) after,
        ap (λ r. r.0.rate_limit_violations) after,
        ap (λ r. r.0.consecutive_violations) after,
        ap (λ r. r.0.current_backoff_seconds) after,
        ap (λ r. r.0.tokens) after,
      )

  -- After a run of responses 429 without a success between, under adaptive limiting and without an
  -- overflow, each was counted and the back-off is the retry time times the power of the factor
  -- that has as exponent the violations before the last, cut off at the maximum.
  pub violate_lem :
      (s : RateLimiter F) (powers : ℕ → F) (first : F) (clock : List F)
      → s.options.enabled ≡ true
      → s.options.adaptive ≡ true
      → HasPowers s.options.backoff_factor powers
      → let s' = violate s (first ∷ clock) in
        (s'.rate_limit_violations ≡ s.rate_limit_violations + suc (length clock))
        × (s'.consecutive_violations ≡ s.consecutive_violations + suc (length clock))
        × (s'.current_backoff_seconds
            ≡ backoff_of s.options (powers (s.consecutive_violations + length clock)))
        × (s'.tokens ≡ nil)
  unfolding violate
  violate_lem s powers first [] enabled adaptive h =
      let c = violation_counts s powers first enabled adaptive h in
      (
        omega (arith, c.1),
        omega (arith, c.2),
        c.3 ∙ ap (λ k. backoff_of s.options (powers k)) (omega arith),
        c.4,
      )
  violate_lem s powers first (now ∷ clock) enabled adaptive h =
      let s' = (record_response s 429 first).0 in
      let c = violation_counts s powers first enabled adaptive h in
      let ih =
        violate_lem s' powers now clock (ap (λ o. o.enabled) c.0 ∙ enabled)
          (ap (λ o. o.adaptive) c.0 ∙ adaptive)
          (λ k. ap (λ o. N.power o.backoff_factor k) c.0 ∙ h k) in
      (
        omega (arith, c.1, ih.0),
        omega (arith, c.2, ih.1),
        ih.2
            ∙ ap (λ o. backoff_of o (powers (s'.consecutive_violations + length clock))) c.0
            ∙ ap (λ k. backoff_of s.options (powers k)) (omega (arith, c.2)),
        ih.3,
      )

  -- The back-off after a step, against the one before and the learned floor.
  abbrev pub IsReduced : F → RateLimiter F → Type 0
  IsReduced old s =
      (lte nil s.current_backoff_seconds ≡ true)
      × (lte s.current_backoff_seconds (fmax old s.learned_floor) ≡ true)

  reduction_bounds :
      (s : RateLimiter F) (reduced : Option F)
      → lte nil s.current_backoff_seconds ≡ true
      → ((q : F) → reduced ≡ some q → (lte nil q ≡ true) × (lte q s.current_backoff_seconds ≡ true))
      → IsReduced s.current_backoff_seconds (on_reduction s reduced).0
  reduction_bounds s none set h = (set, fmax-left s.current_backoff_seconds s.learned_floor)
  reduction_bounds s (some q) set h =
      let old = s.current_backoff_seconds in
      let floor = s.learned_floor in
      let new = fmax floor q in
      let quotient = h q refl in
      let upper = fmax old floor in
      ground (
        arith,
        N.leq_refl nil,
        N.leq_trans nil q new,
        fmax-right floor q,
        fmax-lub floor q upper,
        fmax-left old floor,
        fmax-right old floor,
        N.leq_trans q old upper,
        N.leq_trans nil old upper,
      )

  -- A response other than 429 leaves a back-off that is not negative and does not exceed the
  -- larger of the back-off before and the learned floor, if the back-off before was not negative
  -- and the factor is at least one. The division may raise.
  pub other_response_bounds :
      (s : RateLimiter F) (status : ℕ) (now : F)
      → nat_beq status 429 ≡ false
      → lte nil s.current_backoff_seconds ≡ true
      → lte (lit 1 1) s.options.backoff_factor ≡ true
      → IsReduced s.current_backoff_seconds (record_response s status now).0
  unfolding record_response apply_adaptive_backoff
  other_response_bounds s status now other set factor =
      let old = s.current_backoff_seconds in
      let s' = calculate_minimum_floor (counted_success (record_outcome s status) now) in
      let quotient = N.over old s.options.backoff_factor in
      let positive =
        N.leq_trans nil (lit 1 1) s.options.backoff_factor
          (N.ratio_mono 0 1 1 1 (omega arith) (omega arith) (omega arith)) factor in
      let reduced : IsReduced old (on_reduction s' quotient).0 =
        unfold calculate_minimum_floor in
        reduction_bounds s' quotient set (λ q e. (
          N.over_nonneg old s.options.backoff_factor q set positive e,
          N.over_shrinks old s.options.backoff_factor q set factor e,
        )) in
      ground (arith, reduced, fmax-left old s.learned_floor)
