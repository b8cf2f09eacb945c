-- ===== src/Api/RateLimiter/Backoff.antt =====
-- api/rate_limiter.py: what a response does to the back-off.
use fansly_scraper.Common.{
  ℕ, suc, ◌-◌, not, ◌&&◌, Option, none, some, ltb, leb, nat_beq, if◌then◌else◌,
}
use fansly_scraper.Helpers.Result.{Exception, overflow_error, zero_division}
use fansly_scraper.Helpers.Floating.{Floating, lte, lt, nil, fmin, fmax}
use fansly_scraper.Api.RateLimiter.{RateLimiter, Options, calculate_minimum_floor}

-- What a call leaves of the limiter, and the exception that leaves the call, if one does.
abbrev pub Outcome : Type 0 → Type 0
Outcome F = RateLimiter F × Option Exception

module _ {F : Type 0} ⦃N : Floating F⦄ where
  abbrev pub counted_violation : RateLimiter F → RateLimiter F
  counted_violation s = record s {
    rate_limit_violations = suc s.rate_limit_violations;
    consecutive_violations = suc s.consecutive_violations;
    consecutive_successes = 0;
  }

  abbrev pub start_backoff : RateLimiter F → F → F → RateLimiter F
  start_backoff s now backoff = record s {
    current_backoff_seconds = backoff;
    last_backoff_time = now;
    adaptive_adjustments = suc s.adaptive_adjustments;
    tokens = nil;
    last_refill = N.plus now backoff;
  }

  abbrev pub backoff_of : Options F → F → F
  backoff_of o scale = fmin (N.times o.retry_after_seconds scale) o.max_backoff_seconds

  abbrev pub on_violation : RateLimiter F → F → Option F → Outcome F
  on_violation s now none = (s, some overflow_error)
  on_violation s now (some scale) = (start_backoff s now (backoff_of s.options scale), none)

  -- the three ends of a reduction: at the floor, reset, above the floor
  abbrev pub end_reduction : RateLimiter F → F → RateLimiter F
  end_reduction s minimum =
      if lte s.current_backoff_seconds minimum && lt nil minimum
      then record s { consecutive_successes = 0 }
      else if lte minimum nil
      then record s {
        current_backoff_seconds = nil;
        consecutive_violations = 0;
        consecutive_successes = 0;
      }
      else record s { consecutive_successes = 0 }

  abbrev pub backoff_end : RateLimiter F → F
  backoff_end s = N.plus s.last_backoff_time s.current_backoff_seconds

  abbrev pub clamp_cursor : RateLimiter F → RateLimiter F
  clamp_cursor s = record s { next_allowed_at = fmin s.next_allowed_at (backoff_end s) }

  abbrev pub clamp_refill : RateLimiter F → RateLimiter F
  clamp_refill s = record s { last_refill = fmin s.last_refill (backoff_end s) }

  abbrev pub lower_backoff : RateLimiter F → F → RateLimiter F
  lower_backoff s backoff = record s {
    current_backoff_seconds = backoff;
    consecutive_violations = s.consecutive_violations - 1;
  }

  abbrev pub on_reduction : RateLimiter F → Option F → Outcome F
  on_reduction s none = (s, some zero_division)
  on_reduction s (some reduced) = (
    clamp_refill (
        end_reduction (clamp_cursor (lower_backoff s (fmax s.learned_floor reduced)))
          s.learned_floor),
    none,
  )

  abbrev pub reduce_backoff : RateLimiter F → Outcome F
  reduce_backoff s =
      on_reduction (calculate_minimum_floor s)
        (N.over s.current_backoff_seconds s.options.backoff_factor)

  abbrev pub counted_success : RateLimiter F → F → RateLimiter F
  counted_success s now = record s {
    consecutive_successes = suc s.consecutive_successes;
    last_backoff_time = now;
  }

  abbrev pub on_success : RateLimiter F → F → Outcome F
  on_success s now =
      if lt nil s.current_backoff_seconds
      then (if leb 2 (suc s.consecutive_successes)
          then reduce_backoff (counted_success s now)
          else (counted_success s now, none))
      else (s, none)

  -- `_apply_adaptive_backoff`
  unfoldable pub apply_adaptive_backoff : RateLimiter F → ℕ → F → Outcome F
  unfolding calculate_minimum_floor
  apply_adaptive_backoff s status now =
      if not s.options.adaptive
      then (s, none)
      else if nat_beq status 429
      then on_violation (counted_violation s) now
          (N.power s.options.backoff_factor s.consecutive_violations)
      else if leb 200 status && ltb status 300
      then on_success s now
      else (s, none)
