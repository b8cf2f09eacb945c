-- ===== src/Api/RateLimiter/Steps.antt =====
-- Interleaved calls of the rate limiter: what one holder of the lock does is a step.
use fansly_scraper.Common.{ℕ, Bool, arith}
use fansly_scraper.Helpers.Floating.{Floating, nil}
use fansly_scraper.Api.RateLimiter.{RateLimiter, Options, refill_tokens, new_limiter}
use fansly_scraper.Api.RateLimiter.Calls.{
  is_success, record_outcome, reserve_slot, token_round, record_response, reset_stats,
  update_config,
}
use fansly_scraper.Api.RateLimiter.Bounds.{
  append_bounded-length, IsSensible, IsBounded, rate_of-nonneg, refill_tokens-IsBounded,
  reserve_slot-IsBounded, try_take-IsBounded, apply_backoff-IsBounded,
}

module _ {F : Type 0} ⦃N : Floating F⦄ where
  -- A step of any thread; a response may raise, and leaves the limiter changed then too.
  pub data Step : RateLimiter F → RateLimiter F → Type 0 where
    reserved : (s : RateLimiter F) (now later : F) → Step s (reserve_slot s now later).0
    tried :
        (s : RateLimiter F) (recorded : Bool) (now later : F)
        → Step s (token_round recorded s now later).0
    responded : (s : RateLimiter F) (status : ℕ) (now : F) → Step s (record_response s status now).0
    cleared : (s : RateLimiter F) → Step s (reset_stats s)
    configured : (s : RateLimiter F) (o : Options F) → IsSensible o → Step s (update_config s o)

  pub data Steps : RateLimiter F → RateLimiter F → Type 0 where
    done : {s : RateLimiter F} → Steps s s
    next : {s t u : RateLimiter F} → Step s t → Steps t u → Steps s u

  record_response-IsBounded :
      (s : RateLimiter F) (status : ℕ) (now : F)
      → IsBounded s
      → IsBounded (record_response s status now).0
  unfolding record_response
  record_response-IsBounded s status now b =
      let window = append_bounded-length 1000 s.request_outcomes (is_success status) in
      ground (
        arith,
        apply_backoff-IsBounded (record_outcome s status) status now (ground (arith, window)),
      )

  Step-IsBounded : {s t : RateLimiter F} → Step s t → IsBounded s → IsBounded t
  unfolding token_round reset_stats update_config
  Step-IsBounded (reserved s now later) b = reserve_slot-IsBounded s now later b
  Step-IsBounded (tried s recorded now later) b =
      try_take-IsBounded recorded (refill_tokens s now) later (refill_tokens-IsBounded s now b)
  Step-IsBounded (responded s status now) b = record_response-IsBounded s status now b
  Step-IsBounded (cleared s) b = ground arith
  Step-IsBounded (configured s o h) b =
      ground (arith, N.leq_total s.tokens o.burst_size, N.leq_refl o.burst_size, rate_of-nonneg o h)

  Steps-IsBounded : {s t : RateLimiter F} → Steps s t → IsBounded s → IsBounded t
  Steps-IsBounded done b = b
  Steps-IsBounded (next step steps) b = Steps-IsBounded steps (Step-IsBounded step b)

  new-IsBounded : (o : Options F) (now : F) → IsSensible o → IsBounded (new_limiter o now)
  unfolding new_limiter
  new-IsBounded o now h = ground (
    arith,
    N.leq_refl o.burst_size,
    N.leq_refl nil,
    N.ratio_mono 0 1 20 1 (omega arith) (omega arith) (omega arith),
    rate_of-nonneg o h,
  )

  -- In every interleaving of the calls of a new limiter with sensible options, reconfigurations
  -- with sensible options included: the tokens lie between zero and the burst size, the learned
  -- floor between zero and twenty seconds, and the windows hold at most 1000 and 100 entries.
  pub reachable-IsBounded :
      (o : Options F) (now : F) (s : RateLimiter F)
      → IsSensible o
      → Steps (new_limiter o now) s
      → IsBounded s
  reachable-IsBounded o now s h steps = Steps-IsBounded steps (new-IsBounded o now h)
