-- ===== src/Api/RateLimiter/Stats.antt =====
-- What the statistics report.
use fansly_scraper.Common.{◌≤◌, ◌≡◌, true, List, [], ◌∷◌, arith, length}
use fansly_scraper.Helpers.Floating.{Floating, lte, nil, fmax-left}
use fansly_scraper.Api.RateLimiter.{RateLimiter, Options, new_limiter}
use fansly_scraper.Api.RateLimiter.Bounds.{IsSensible}
use fansly_scraper.Api.RateLimiter.Calls.{recent, get_stats}
use fansly_scraper.Api.RateLimiter.Steps.{Steps, reachable-IsBounded}

module _ {F : Type 0} ⦃N : Floating F⦄ where
  recent_le : (now : F) (history : List F) → recent now history ≤ length history
  recent_le now [] = omega arith
  recent_le now (t ∷ ts) = ground (arith, recent_le now ts)

  -- The rate of requests per minute that is reported for a limiter that interleaved calls reach
  -- from a new one with sensible options is at most one hundred, whatever the configured rate is,
  -- and the remaining back-off is not negative.
  pub stats_bounded :
      (o : Options F) (start : F) (s : RateLimiter F) (now second third : F)
      → IsSensible o
      → Steps (new_limiter o start) s
      → ((get_stats s now second third).current_rate_per_minute ≤ 100)
        × (lte nil (get_stats s now second third).backoff_remaining ≡ true)
  unfolding get_stats
  stats_bounded o start s now second third h steps =
      let b = reachable-IsBounded o start s h steps in
      let rest = N.minus s.current_backoff_seconds (N.minus now s.last_backoff_time) in
      (
        omega (arith, recent_le now s.request_history, b.history_window),
        ground (arith, N.leq_refl nil, fmax-left nil rest),
      )
