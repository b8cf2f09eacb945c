-- ===== src/Api/RateLimiter/Progress.antt =====
-- The loop that waits for a token ends when time passes.
use fansly_scraper.Common.{
  suc, ◌≡◌, refl, sym, subst, inl, inr, Bool, true, some, List, [], ◌∷◌, ◌++◌, arith, All,
  Bool-cases,
}
use fansly_scraper.Helpers.Floating.{Floating, lte, lit, nil, fmin-glb}
use fansly_scraper.Api.RateLimiter.{RateLimiter, refill_tokens}
use fansly_scraper.Api.RateLimiter.Bounds.{IsBounded, refill_tokens-IsBounded}
use fansly_scraper.Api.RateLimiter.Calls.{take_token, token_round, wait_for_token}
use fansly_scraper.Api.RateLimiter.Tokens.{round_waits, count_wait-keeps}

module _ {F : Type 0} ⦃N : Floating F⦄ where
  -- The time between two readings makes up for one token.
  abbrev pub IsEnough : F → F → F → Type 0
  IsEnough rate earlier now = lte (lit 1 1) (N.times (N.minus now earlier) rate) ≡ true

  token_ready :
      (s : RateLimiter F) (now : F)
      → IsBounded s
      → lte (lit 1 1) s.options.burst_size ≡ true
      → IsEnough s.rate_per_second s.last_refill now
      → lte (lit 1 1) (refill_tokens s now).tokens ≡ true
  unfolding refill_tokens
  token_ready s now b burst enough =
      let elapsed = N.minus now s.last_refill in
      let added = N.times elapsed s.rate_per_second in
      let total = N.plus s.tokens added in
      let grown : lte added total ≡ true =
        N.leq_trans added (N.plus nil added) total (N.zero_plus added)
          (N.plus_mono nil s.tokens added added b.tokens_nonneg (N.leq_refl added)) in
      ground (
        arith,
        N.one_pos,
        N.times_nonpos elapsed s.rate_per_second,
        N.leq_trans (lit 1 1) added nil,
        N.leq_trans (lit 1 1) added total,
        fmin-glb s.options.burst_size total (lit 1 1),
      )

  round_takes :
      (recorded : Bool) (s : RateLimiter F) (now later : F)
      → lte (lit 1 1) (refill_tokens s now).tokens ≡ true
      → token_round recorded s now later ≡ (take_token (refill_tokens s now) later, true)
  unfolding token_round
  round_takes recorded s now later h = rw (h)

  -- every earlier reading is a token's time before
  abbrev pub IsAfterAll : F → F → List (F × F) → Type 0
  IsAfterAll rate now before = All (λ reading. IsEnough rate reading.0 now) before

  refill_keeps :
      (s : RateLimiter F) (n : F)
      → ((refill_tokens s n).options ≡ s.options)
        × ((refill_tokens s n).rate_per_second ≡ s.rate_per_second)
  unfolding refill_tokens
  refill_keeps s n = ground arith

  refill-IsEnough :
      (s : RateLimiter F) (n now : F)
      → IsEnough s.rate_per_second s.last_refill now
      → IsEnough s.rate_per_second n now
      → IsEnough (refill_tokens s n).rate_per_second (refill_tokens s n).last_refill now
  unfolding refill_tokens
  refill-IsEnough s n now h k = ground arith

  -- If the burst size is at least one and the limiter is within its bounds, then the loop ends, at
  -- the latest at the first reading that lies a token's time after the last refill and after every
  -- earlier reading.
  pub wait_returns :
      (recorded : Bool) (s : RateLimiter F) (before : List (F × F)) (now later : F)
      (clock : List (F × F))
      → IsBounded s
      → lte (lit 1 1) s.options.burst_size ≡ true
      → IsEnough s.rate_per_second s.last_refill now
      → IsAfterAll s.rate_per_second now before
      → (t : RateLimiter F) × (wait_for_token recorded s (before ++ ((now, later) ∷ clock))
          ≡ some t)
  unfolding wait_for_token
  wait_returns recorded s [] now later clock b burst enough after =
      let r = refill_tokens s now in
      (
        take_token r later,
        rw (round_takes recorded s now later (token_ready s now b burst enough)) refl,
      )
  wait_returns recorded s ((n, l) ∷ before) now later clock b burst enough after =
      let r = refill_tokens s n in
      elim (Bool-cases (lte (lit 1 1) r.tokens)) [
        | inl h ↦ (take_token r l, rw (round_takes recorded s n l h) refl)
        | inr h ↦
            let keeps = refill_keeps s n in
            let b' = refill_tokens-IsBounded s n b in
            let burst' = subst (λ o. lte (lit 1 1) o.burst_size ≡ true) (sym keeps.0) burst in
            let enough' = refill-IsEnough s n now enough after.0 in
            let after' = subst (λ rate. IsAfterAll rate now before) (sym keeps.1) after.1 in
            let rest =
              count_wait-keeps
                (λ t.
                  (u : RateLimiter F) × (wait_for_token true t (before ++ ((now, later) ∷ clock))
                    ≡ some u))
                recorded r (wait_returns true r before now later clock b' burst' enough' after')
                (wait_returns true (record r { blocked_requests = suc r.blocked_requests }) before
                  now later clock (ground arith) burst' enough' after') in
            (rest.0, rw (round_waits recorded s n l h) rest.1)
      ]
