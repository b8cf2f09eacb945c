-- ===== src/Api/RateLimiter/Floors.antt =====
-- How the learned floor moves, and what the statistics report.
use fansly_scraper.Common.{ℕ, zero, suc, ◌<◌, ◌≡◌, true, false, arith}
use fansly_scraper.Helpers.Floating.{Floating, lte, lt, lit, nil, fmax, fmax-left}
use fansly_scraper.Api.RateLimiter.{
  RateLimiter, wanted_floor, decayed, next_floor, calculate_minimum_floor, refill_tokens,
}
use fansly_scraper.Api.RateLimiter.Backoff.{counted_success, apply_adaptive_backoff}
use fansly_scraper.Api.RateLimiter.Calls.{
  reserve_slot, token_round, record_outcome, record_response, reset_stats, update_config,
}
use fansly_scraper.Api.RateLimiter.Steps.{Step, reserved, tried, responded, cleared, configured}

module _ {F : Type 0} ⦃N : Floating F⦄ where
  decayed-pos : (n : ℕ) (floor : F) → 0 < n → lte (decayed n floor) nil ≡ false
  decayed-pos zero floor h = ground arith
  decayed-pos (suc n) floor h =
      let k = N.times floor (lit 95 100) in
      ground
        (arith, N.half_pos, fmax-left (lit 1 2) k, N.leq_trans (lit 1 2) (fmax (lit 1 2) k) nil)

  next_floor-pos :
      (s : RateLimiter F)
      → 0 < s.rate_limit_violations
      → lt nil s.learned_floor ≡ true
      → lt nil (next_floor s) ≡ true
  next_floor-pos s h pos =
      let wanted = wanted_floor s in
      ground (
        arith,
        decayed-pos s.rate_limit_violations s.learned_floor h,
        N.leq_trans wanted nil s.learned_floor,
        N.leq_total nil s.learned_floor,
      )

  -- A learned floor that is positive stays positive at every step of any thread, as long as the
  -- lifetime count of violations is positive before and after it.
  pub floor_stays_positive :
      {s t : RateLimiter F}
      → Step s t
      → 0 < s.rate_limit_violations
      → 0 < t.rate_limit_violations
      → lt nil s.learned_floor ≡ true
      → lt nil t.learned_floor ≡ true
  unfolding reserve_slot token_round record_response reset_stats update_config
      calculate_minimum_floor apply_adaptive_backoff refill_tokens
  floor_stays_positive (reserved s now later) before after pos =
      ground (arith, next_floor-pos s before pos)
  floor_stays_positive (tried s recorded now later) before after pos = ground arith
  floor_stays_positive (responded s status now) before after pos =
      ground (arith, next_floor-pos (counted_success (record_outcome s status) now) before pos)
  floor_stays_positive (cleared s) before after pos = pos
  floor_stays_positive (configured s o h) before after pos = pos
