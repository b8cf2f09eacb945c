-- ===== src/Api/RateLimiter/Tests.antt =====
-- Runs of the rate limiter in thousandths of a second, and the theorems at them.
use fansly_scraper.Common.{ℕ, ◌≡◌, refl, true, false, none, some, [], ◌∷◌, All}
use fansly_scraper.Helpers.Floating.{lte}
use fansly_scraper.Api.RateLimiter.{RateLimiter, Options, new_limiter}
use fansly_scraper.Api.RateLimiter.Backoff.{backoff_end}
use fansly_scraper.Api.RateLimiter.Bounds.{IsBounded, IsSensible}
use fansly_scraper.Api.RateLimiter.Calls.{
  reserve_slot, wait_for_token, wait_for_request, record_response,
}
use fansly_scraper.Api.RateLimiter.Fixed.{fixed}
use fansly_scraper.Api.RateLimiter.Steps.{done, next, responded, reachable-IsBounded}
use fansly_scraper.Api.RateLimiter.Slots.{reserve_targets, IsSpacedFrom, reservations_spaced}
use fansly_scraper.Api.RateLimiter.Tokens.{no_token_in_backoff, small_burst_waits}
use fansly_scraper.Api.RateLimiter.Progress.{wait_returns}
use fansly_scraper.Api.RateLimiter.Responses.{record_response_raises}

-- the defaults of the configuration
abbrev options : Options ℕ
options = record {
  enabled = true;
  requests_per_minute = 60000;
  burst_size = 10000;
  retry_after_seconds = 30000;
  adaptive = true;
  backoff_factor = 1500;
  max_backoff_seconds = 300000;
}

options-IsSensible : IsSensible options
options-IsSensible = record { burst_nonneg = refl; rate_nonneg = refl }

abbrev limiter : RateLimiter ℕ
limiter = new_limiter options 1000000

abbrev refused : RateLimiter ℕ
refused = (record_response limiter 429 1001000).0

backs_off : backoff_end refused ≡ 1031000
unfolding record_response new_limiter
backs_off = refl

-- three reservations at once are served a second apart
three_slots :
    reserve_targets limiter ((1000000, 1000000) ∷ (1000000, 1000000) ∷ (1000000, 1000000) ∷ [])
    ≡ 1000000 ∷ 1001000 ∷ 1002000 ∷ []
unfolding reserve_targets reserve_slot new_limiter
three_slots = refl

reachable-IsBounded_example : IsBounded refused
reachable-IsBounded_example =
    reachable-IsBounded options 1000000 refused options-IsSensible
      (next (responded limiter 429 1001000) done)

reservations_spaced_example :
    IsSpacedFrom limiter.next_allowed_at limiter.token_refill_interval
      (reserve_targets limiter ((1000000, 1000000) ∷ (1000001, 1000002) ∷ []))
reservations_spaced_example =
    reservations_spaced limiter ((1000000, 1000000) ∷ (1000001, 1000002) ∷ [])

before_the_end :
    All
      (λ (r : ℕ × ℕ). lte r.0 (backoff_end refused) ≡ true)
      ((1010000, 1010001) ∷ (1031000, 1031001) ∷ [])
unfolding record_response new_limiter
before_the_end = (refl, (refl, tt))

no_token_in_backoff_example :
    wait_for_request refused 1002000 1002001 ((1010000, 1010001) ∷ (1031000, 1031001) ∷ []) ≡ none
unfolding new_limiter
no_token_in_backoff_example =
    no_token_in_backoff limiter 1001000 1002000 1002001 1000
      ((1010000, 1010001) ∷ (1031000, 1031001) ∷ []) refl refl refl before_the_end

-- a burst size of one half
abbrev starved : RateLimiter ℕ
starved = new_limiter (record options { burst_size = 500 }) 1000000

starved-IsBounded : IsBounded starved
starved-IsBounded =
    reachable-IsBounded (record options { burst_size = 500 }) 1000000 starved
      (record { burst_nonneg = refl; rate_nonneg = refl }) done

small_burst_waits_example :
    wait_for_request starved 1000000 1000001 ((2000000, 2000001) ∷ (3000000, 3000001) ∷ []) ≡ none
unfolding new_limiter
small_burst_waits_example =
    small_burst_waits starved 1000000 1000001 ((2000000, 2000001) ∷ (3000000, 3000001) ∷ [])
      starved-IsBounded refl refl

wait_returns_example :
    (t : RateLimiter ℕ) × (wait_for_token false refused
        ((1032000, 1032000) ∷ (1033000, 1033000) ∷ [])
      ≡ some t)
unfolding new_limiter record_response
wait_returns_example =
    wait_returns false refused ((1032000, 1032000) ∷ []) 1033000 1033000 []
      reachable-IsBounded_example refl refl (refl, tt)

record_response_raises_example : (record_response refused 200 1040000).1 ≡ none
unfolding new_limiter record_response
record_response_raises_example = record_response_raises refused 200 1040000

abbrev learned : RateLimiter ℕ
learned = record refused { learned_floor = 2000 }
