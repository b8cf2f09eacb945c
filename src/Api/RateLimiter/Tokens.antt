-- ===== src/Api/RateLimiter/Tokens.antt =====
-- When no request gets a token.
use fansly_scraper.Common.{
  suc, ◌≡◌, refl, sym, ap, ◌∙◌, subst, Bool, true, false, none, some, List, [], ◌∷◌, arith, All,
}
use fansly_scraper.Helpers.Floating.{Floating, lte, lit, nil}
use fansly_scraper.Api.RateLimiter.{RateLimiter, refill_tokens}
use fansly_scraper.Api.RateLimiter.Backoff.{
  backoff_end, backoff_of, start_backoff, counted_violation, apply_adaptive_backoff,
}
use fansly_scraper.Api.RateLimiter.Bounds.{
  IsBounded, refill_tokens-IsBounded, reserve_slot-IsBounded,
}
use fansly_scraper.Api.RateLimiter.Calls.{
  count_wait, token_round, wait_for_token, wait_for_request, reserve_slot, record_outcome,
  record_response,
}

module _ {F : Type 0} ⦃N : Floating F⦄ where
  -- The clock has not passed the end of the back-off at any of the readings.
  abbrev pub IsBefore : F → F × F → Type 0
  IsBefore end_time (now, later) = lte now end_time ≡ true

  pub refill_early :
      (s : RateLimiter F) (now : F) → lte now s.last_refill ≡ true → refill_tokens s now ≡ s
  unfolding refill_tokens
  refill_early s now h = rw (N.minus_pos now s.last_refill h)

  pub round_waits :
      (recorded : Bool) (s : RateLimiter F) (now later : F)
      → lte (lit 1 1) (refill_tokens s now).tokens ≡ false
      → token_round recorded s now later ≡ (count_wait recorded (refill_tokens s now), false)
  unfolding token_round
  round_waits recorded s now later h = rw (h)

  -- What a failed round counts changes neither the tokens nor the time of the refill.
  pub count_wait-keeps :
      (P : RateLimiter F → Type 0) (recorded : Bool) (s : RateLimiter F)
      → P s
      → P (record s { blocked_requests = suc s.blocked_requests })
      → P (count_wait recorded s)
  count_wait-keeps P true s p q = p
  count_wait-keeps P false s p q = q

  drained_waits :
      (recorded : Bool) (s : RateLimiter F) (clock : List (F × F))
      → s.tokens ≡ nil
      → All (IsBefore s.last_refill) clock
      → wait_for_token recorded s clock ≡ none
  unfolding wait_for_token
  drained_waits recorded s [] h early = refl
  drained_waits recorded s ((now, later) ∷ clock) h early =
      rw
        (
          round_waits recorded s now later (rw (refill_early s now early.0, h) N.one_pos),
          refill_early s now early.0,
        )
        (count_wait-keeps (λ t. wait_for_token true t clock ≡ none) recorded s
          (drained_waits true s clock h early.1)
          (drained_waits true (record s { blocked_requests = suc s.blocked_requests }) clock h
            early.1))

  small_burst_loops :
      (recorded : Bool) (s : RateLimiter F) (clock : List (F × F))
      → IsBounded s
      → lte (lit 1 1) s.options.burst_size ≡ false
      → wait_for_token recorded s clock ≡ none
  unfolding wait_for_token
  small_burst_loops recorded s [] b h = refl
  small_burst_loops recorded s ((now, later) ∷ clock) b h =
      let r = refill_tokens s now in
      let b' = refill_tokens-IsBounded s now b in
      let same : r.options ≡ s.options = unfold refill_tokens in ground arith in
      let few : lte (lit 1 1) r.tokens ≡ false =
        ground (arith, N.leq_trans (lit 1 1) r.tokens r.options.burst_size) in
      rw (round_waits recorded s now later few) (
        count_wait-keeps (λ t. wait_for_token true t clock ≡ none) recorded r
          (small_burst_loops true r clock b' (rw (same) h))
          (small_burst_loops true (record r { blocked_requests = suc r.blocked_requests }) clock
            (ground arith) (rw (same) h)))

  wait_enabled :
      (s : RateLimiter F) (t u : F) (clock : List (F × F))
      → s.options.enabled ≡ true
      → wait_for_request s t u clock ≡ wait_for_token false (reserve_slot s t u).0 clock
  unfolding wait_for_request
  wait_enabled s t u clock enabled = ground arith

  drained_request :
      (s : RateLimiter F) (t u : F) (clock : List (F × F))
      → s.options.enabled ≡ true
      → s.tokens ≡ nil
      → All (IsBefore s.last_refill) clock
      → wait_for_request s t u clock ≡ none
  drained_request s t u clock enabled h early =
      wait_enabled s t u clock enabled
      ∙ unfold reserve_slot in drained_waits false (reserve_slot s t u).0 clock h early

  pub violation_starts :
      (s : RateLimiter F) (now scale : F)
      → s.options.enabled ≡ true
      → s.options.adaptive ≡ true
      → N.power s.options.backoff_factor s.consecutive_violations ≡ some scale
      → record_response s 429 now ≡ (
        start_backoff (counted_violation (record_outcome s 429)) now (backoff_of s.options scale),
        none,
      )
  unfolding record_response apply_adaptive_backoff
  violation_starts s now scale enabled adaptive p = rw (enabled, adaptive, p)

  -- After a response 429 under adaptive limiting whose back-off can be computed, a request that
  -- starts then is not let through by any number of rounds whose clock has not passed the end of
  -- the back-off.
  pub no_token_in_backoff :
      (s : RateLimiter F) (now t u : F) (scale : F) (clock : List (F × F))
      → s.options.enabled ≡ true
      → s.options.adaptive ≡ true
      → N.power s.options.backoff_factor s.consecutive_violations ≡ some scale
      → All (IsBefore (backoff_end (record_response s 429 now).0)) clock
      → wait_for_request (record_response s 429 now).0 t u clock ≡ none
  no_token_in_backoff s now t u scale clock enabled adaptive p early =
      let after = violation_starts s now scale enabled adaptive p in
      let refilled_at_end =
        ap (λ r. r.0.last_refill) after ∙ sym (ap (λ r. backoff_end r.0) after) in
      drained_request (record_response s 429 now).0 t u clock
        (ap (λ r. r.0.options.enabled) after ∙ enabled) (ap (λ r. r.0.tokens) after)
        (subst (λ end_time. All (IsBefore end_time) clock) (sym refilled_at_end) early)

  -- A limiter within its bounds whose burst size is below one never lets a request through: no
  -- number of rounds of the loop gives a token, whatever the clock reads.
  pub small_burst_waits :
      (s : RateLimiter F) (now later : F) (clock : List (F × F))
      → IsBounded s
      → s.options.enabled ≡ true
      → lte (lit 1 1) s.options.burst_size ≡ false
      → wait_for_request s now later clock ≡ none
  small_burst_waits s now later clock b enabled h =
      wait_enabled s now later clock enabled
      ∙ small_burst_loops false (reserve_slot s now later).0 clock
          (reserve_slot-IsBounded s now later b) (unfold reserve_slot in h)
