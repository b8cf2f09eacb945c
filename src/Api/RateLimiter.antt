-- ===== src/Api/RateLimiter.antt =====
-- api/rate_limiter.py: the state of RateLimiter and its private operations. Every reading of
-- `time.time()` is an argument. The configured numbers are read as floats.
pub mod Backoff
pub mod Calls
pub mod Bounds
pub mod Steps
pub mod Slots
pub mod Tokens
pub mod Progress
pub mod Responses
pub mod Floors
pub mod Stats
pub mod Fixed
pub mod Tests
use fansly_scraper.Common.{
  ℕ, zero, suc, ◌+◌, ◌-◌, Bool, true, false, not, ◌&&◌, ◌||◌, Option, none, some, List, [], ◌∷◌,
  ◌++◌, ltb, leb, nat_beq, length, drop, if◌then◌else◌,
}
use fansly_scraper.Helpers.Floating.{Floating, lte, lt, lit, nil, fmin, fmax}

-- the options of FanslyConfig that the limiter reads
pub record Options (F : Type 0) : Type 0 where
  pub enabled : Bool
  pub requests_per_minute : F
  pub burst_size : F
  pub retry_after_seconds : F
  pub adaptive : Bool
  pub backoff_factor : F
  pub max_backoff_seconds : F

-- `RateLimiter`; a deque holds its newest entry last
pub record RateLimiter (F : Type 0) : Type 0 where
  pub options : Options F
  pub rate_per_second : F
  pub token_refill_interval : F
  pub tokens : F
  pub last_refill : F
  pub request_history : List F
  pub last_request_time : F
  pub request_outcomes : List Bool
  pub rate_limit_violations : ℕ
  pub consecutive_violations : ℕ
  pub consecutive_successes : ℕ
  pub current_backoff_seconds : F
  pub last_backoff_time : F
  pub learned_floor : F
  pub next_allowed_at : F
  pub total_requests : ℕ
  pub blocked_requests : ℕ
  pub adaptive_adjustments : ℕ

-- `deque(maxlen=limit).append(x)`
abbrev pub append_bounded {ℓ} : {A : Type ℓ} → ℕ → List A → A → List A
append_bounded limit xs x = drop (length (xs ++ (x ∷ [])) - limit) (xs ++ (x ∷ []))

abbrev pub failures : List Bool → ℕ
failures [] = 0
failures (true ∷ os) = failures os
failures (false ∷ os) = suc (failures os)

module _ {F : Type 0} ⦃N : Floating F⦄ where
  -- rate_per_second, and 1 / rate_per_second where the rate is positive; 60 is never zero
  abbrev pub quotient : Option F → F
  quotient none = lit 1 1
  quotient (some q) = q

  abbrev pub rate_of : Options F → F
  rate_of o = quotient (N.over o.requests_per_minute (lit 60 1))

  abbrev pub interval_of : F → F
  interval_of rate = if lt nil rate then quotient (N.over (lit 1 1) rate) else lit 1 1

  -- `__init__`
  unfoldable pub new_limiter : Options F → F → RateLimiter F
  new_limiter o now = record {
    options = o;
    rate_per_second = rate_of o;
    token_refill_interval = interval_of (rate_of o);
    tokens = o.burst_size;
    last_refill = now;
    request_history = [];
    last_request_time = nil;
    request_outcomes = [];
    rate_limit_violations = 0;
    consecutive_violations = 0;
    consecutive_successes = 0;
    current_backoff_seconds = nil;
    last_backoff_time = nil;
    learned_floor = nil;
    next_allowed_at = nil;
    total_requests = 0;
    blocked_requests = 0;
    adaptive_adjustments = 0;
  }

  -- `_refill_tokens`
  unfoldable pub refill_tokens : RateLimiter F → F → RateLimiter F
  refill_tokens s now =
      if lt nil (N.minus now s.last_refill)
      then record s {
        tokens =
            fmin s.options.burst_size
              (N.plus s.tokens (N.times (N.minus now s.last_refill) s.rate_per_second));
        last_refill = now;
      }
      else s

  -- `_is_in_backoff`
  unfoldable pub is_in_backoff : RateLimiter F → F → Bool
  is_in_backoff s now =
      not (lte s.current_backoff_seconds nil)
      && lt (N.minus now s.last_backoff_time) s.current_backoff_seconds

  -- the floor that the violations of the window ask for, and its cap
  abbrev pub uncapped_floor : RateLimiter F → F
  uncapped_floor s = N.plus (lit 1 1) (
      N.times (N.ratio (failures s.request_outcomes) (length s.request_outcomes))
        (N.times (lit 20 1) s.options.backoff_factor))

  abbrev pub wanted_floor : RateLimiter F → F
  wanted_floor s = fmin (lit 20 1) (uncapped_floor s)

  -- the decay after a full window of successes
  abbrev pub decayed : ℕ → F → F
  decayed zero floor =
      if lt (N.times floor (lit 95 100)) (lit 1 10) then nil else N.times floor (lit 95 100)
  decayed (suc n) floor = fmax (lit 1 2) (N.times floor (lit 95 100))

  abbrev pub next_floor : RateLimiter F → F
  next_floor s =
      if ltb (length s.request_outcomes) 10
      then s.learned_floor
      else if ltb 0 (failures s.request_outcomes)
      then (if lt s.learned_floor (wanted_floor s) then wanted_floor s else s.learned_floor)
      else if nat_beq (length s.request_outcomes) 1000 && lt nil s.learned_floor
      then decayed s.rate_limit_violations s.learned_floor
      else s.learned_floor

  -- `_calculate_minimum_floor`, which returns the learned floor that it leaves
  unfoldable pub calculate_minimum_floor : RateLimiter F → RateLimiter F
  calculate_minimum_floor s = record s { learned_floor = next_floor s }
