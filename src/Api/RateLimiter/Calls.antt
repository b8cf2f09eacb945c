-- ===== src/Api/RateLimiter/Calls.antt =====
-- api/rate_limiter.py: the calls of the client, each under the lock where the source holds it.
use fansly_scraper.Common.{
  ℕ, suc, Bool, true, false, not, ◌&&◌, ◌||◌, Option, none, some, List, [], ◌∷◌, ltb, leb, nat_beq,
  any, if◌then◌else◌,
}
use fansly_scraper.Helpers.Floating.{Floating, lte, lt, lit, nil, fmax}
use fansly_scraper.Api.RateLimiter.{
  RateLimiter, Options, append_bounded, rate_of, interval_of, refill_tokens, is_in_backoff,
  calculate_minimum_floor,
}
use fansly_scraper.Api.RateLimiter.Backoff.{Outcome, backoff_end, apply_adaptive_backoff}

abbrev pub rate_limit_errors : List ℕ
rate_limit_errors = 408 ∷ 418 ∷ 425 ∷ 429 ∷ 500 ∷ 502 ∷ 503 ∷ 504 ∷ []

abbrev pub is_success : ℕ → Bool
is_success status = leb 200 status && ltb status 300 || not (any (nat_beq status) rate_limit_errors)

-- `_reserve_slot` returns the target, the floor and whether a back-off runs.
pub record Slot (F : Type 0) : Type 0 where
  pub target : F
  pub floor : F
  pub in_backoff : Bool

-- The numbers of `get_stats`, in the source's order; the counters and options are the limiter's.
pub record RateLimiterStats (F : Type 0) : Type 0 where
  pub limiter : RateLimiter F
  pub current_rate_per_minute : ℕ
  pub backoff_remaining : F
  pub is_in_backoff : Bool
  pub utilization_percent : F

module _ {F : Type 0} ⦃N : Floating F⦄ where
  abbrev pub ready_at : RateLimiter F → F → Bool → F
  ready_at s now in_backoff =
      fmax (fmax now s.next_allowed_at) (if in_backoff then backoff_end s else nil)

  abbrev pub target_of : RateLimiter F → F → F
  target_of s ready =
      if lt nil s.learned_floor && lt nil s.last_request_time
      then fmax ready (N.plus s.last_request_time s.learned_floor)
      else ready

  abbrev pub book : RateLimiter F → F → Bool → F → RateLimiter F × Slot F
  book s now in_backoff target = (
    record s {
      next_allowed_at = N.plus target (fmax s.learned_floor s.token_refill_interval);
      blocked_requests =
          if in_backoff || lt (N.plus now (lit 1 1000)) target
          then suc s.blocked_requests
          else s.blocked_requests;
    },
    record { target = target; floor = s.learned_floor; in_backoff = in_backoff },
  )

  abbrev pub reserve_after_floor : RateLimiter F → F → Bool → RateLimiter F × Slot F
  reserve_after_floor s now in_backoff =
      book s now in_backoff (target_of s (ready_at s now in_backoff))

  -- `_reserve_slot`, with its two readings of the clock
  unfoldable pub reserve_slot : RateLimiter F → F → F → RateLimiter F × Slot F
  unfolding is_in_backoff calculate_minimum_floor
  reserve_slot s now later =
      let counted = calculate_minimum_floor (record s { total_requests = suc s.total_requests }) in
      reserve_after_floor counted now (is_in_backoff counted later)

  abbrev pub take_token : RateLimiter F → F → RateLimiter F
  take_token s now = record s {
    tokens = N.minus s.tokens (lit 1 1);
    request_history = append_bounded 100 s.request_history now;
    last_request_time = now;
  }

  abbrev pub count_wait : Bool → RateLimiter F → RateLimiter F
  count_wait true s = s
  count_wait false s = record s { blocked_requests = suc s.blocked_requests }

  abbrev pub try_take : Bool → RateLimiter F → F → RateLimiter F × Bool
  try_take recorded s now =
      if lte (lit 1 1) s.tokens then (take_token s now, true) else (count_wait recorded s, false)

  -- One round of the loop that waits for a token, under the lock: whether it got one. The clock is
  -- read for the refill and again for the request; the flag is `token_blocked_recorded`.
  unfoldable pub token_round : Bool → RateLimiter F → F → F → RateLimiter F × Bool
  unfolding refill_tokens
  token_round recorded s now later = try_take recorded (refill_tokens s now) later

  abbrev pub or_wait : RateLimiter F × Bool → Option (RateLimiter F) → Option (RateLimiter F)
  or_wait (s, true) rest = some s
  or_wait (s, false) rest = rest

  -- The loop, with the readings of its rounds; none is a loop that goes on after them.
  unfoldable pub wait_for_token : Bool → RateLimiter F → List (F × F) → Option (RateLimiter F)
  unfolding token_round
  wait_for_token recorded s [] = none
  wait_for_token recorded s ((now, later) ∷ clock) =
      let round = token_round recorded s now later in
      let rest = wait_for_token true round.0 clock in or_wait round rest

  -- `wait_for_request`: what it leaves of the limiter. The sleep until the target is the caller's
  -- clock: its readings follow those of the reservation.
  unfoldable pub wait_for_request : RateLimiter F → F → F → List (F × F) → Option (RateLimiter F)
  unfolding reserve_slot wait_for_token
  wait_for_request s now later clock =
      if s.options.enabled then wait_for_token false (reserve_slot s now later).0 clock else some s

  -- the outcome enters the window before the back-off is applied
  abbrev pub record_outcome : RateLimiter F → ℕ → RateLimiter F
  record_outcome s status = record s {
    request_outcomes = append_bounded 1000 s.request_outcomes (is_success status);
  }

  -- `record_response`
  unfoldable pub record_response : RateLimiter F → ℕ → F → Outcome F
  unfolding apply_adaptive_backoff
  record_response s status now =
      if s.options.enabled
      then apply_adaptive_backoff (record_outcome s status) status now
      else (s, none)

  abbrev pub recent : F → List F → ℕ
  recent now [] = 0
  recent now (t ∷ ts) = if lt (N.minus now t) (lit 60 1) then suc (recent now ts) else recent now ts

  abbrev pub percent : Option F → F
  percent none = nil
  percent (some q) = N.times q (lit 100 1)

  -- `get_stats`, with its three readings of the clock
  unfoldable pub get_stats : RateLimiter F → F → F → F → RateLimiterStats F
  unfolding is_in_backoff
  get_stats s now second third = record {
    limiter = s;
    current_rate_per_minute = recent now s.request_history;
    backoff_remaining =
        if is_in_backoff s second
        then fmax nil (N.minus s.current_backoff_seconds (N.minus now s.last_backoff_time))
        else nil;
    is_in_backoff = is_in_backoff s third;
    utilization_percent =
        if lt nil s.options.requests_per_minute
        then percent
            (N.over (N.ratio (recent now s.request_history) 1) s.options.requests_per_minute)
        else nil;
  }

  -- `reset_stats`
  unfoldable pub reset_stats : RateLimiter F → RateLimiter F
  reset_stats s = record s {
    total_requests = 0;
    blocked_requests = 0;
    rate_limit_violations = 0;
    adaptive_adjustments = 0;
    request_history = [];
  }

  -- `update_config`
  unfoldable pub update_config : RateLimiter F → Options F → RateLimiter F
  update_config s o = record s {
    options = o;
    rate_per_second = rate_of o;
    token_refill_interval = interval_of (rate_of o);
    tokens = if lt o.burst_size s.tokens then o.burst_size else s.tokens;
  }
