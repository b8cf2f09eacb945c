-- ===== src/Api/RateLimiter/Bounds.antt =====
-- The bounds that every call of the rate limiter keeps.
use fansly_scraper.Common.{
  ℕ, zero, suc, ◌-◌, ◌≤◌, ◌≡◌, inl, inr, Bool, true, Option, none, some, List, [], ◌∷◌, ◌++◌, arith,
  length, drop, Option-cases,
}
use fansly_scraper.Helpers.Floating.{
  Floating, lte, lit, nil, fmax, fmin-left, fmin-glb, fmax-left, fmax-lub, plus_grows,
}
use fansly_scraper.Api.RateLimiter.{
  RateLimiter, Options, append_bounded, rate_of, uncapped_floor, wanted_floor, decayed, next_floor,
  refill_tokens, calculate_minimum_floor,
}
use fansly_scraper.Api.RateLimiter.Backoff.{on_reduction, apply_adaptive_backoff}
use fansly_scraper.Api.RateLimiter.Calls.{reserve_slot, try_take}

length-drop {ℓ} : {A : Type ℓ} (n : ℕ) (xs : List A) → length (drop n xs) ≡ length xs - n
length-drop zero xs = omega arith
length-drop (suc n) [] = omega arith
length-drop (suc n) (x ∷ xs) = omega (arith, length-drop n xs)

pub append_bounded-length {ℓ} :
    {A : Type ℓ} (limit : ℕ) (xs : List A) (x : A) → length (append_bounded limit xs x) ≤ limit
append_bounded-length limit xs x =
    omega (arith, length-drop (length (xs ++ (x ∷ [])) - limit) (xs ++ (x ∷ [])))

module _ {F : Type 0} ⦃N : Floating F⦄ where
  -- Options whose burst size and rate are not negative.
  pub record IsSensible (o : Options F) : Type 0 where
    pub burst_nonneg : lte nil o.burst_size ≡ true
    pub rate_nonneg : lte nil o.requests_per_minute ≡ true

  -- Tokens between zero and the burst size, a learned floor between zero and twenty seconds, and
  -- windows within their lengths.
  pub record IsBounded (s : RateLimiter F) : Type 0 where
    pub tokens_nonneg : lte nil s.tokens ≡ true
    pub tokens_burst : lte s.tokens s.options.burst_size ≡ true
    pub rate_nonneg : lte nil s.rate_per_second ≡ true
    pub floor_nonneg : lte nil s.learned_floor ≡ true
    pub floor_cap : lte s.learned_floor (lit 20 1) ≡ true
    pub outcomes_window : length s.request_outcomes ≤ 1000
    pub history_window : length s.request_history ≤ 100

  pub rate_of-nonneg : (o : Options F) → IsSensible o → lte nil (rate_of o) ≡ true
  rate_of-nonneg o h = elim (Option-cases (N.over o.requests_per_minute (lit 60 1))) [
    | inl e ↦ rw (e) (N.ratio_mono 0 1 1 1 (omega arith) (omega arith) (omega arith))
    | inr (q, e) ↦ rw (e) (
        N.over_nonneg o.requests_per_minute (lit 60 1) q h.rate_nonneg
          (N.ratio_mono 0 1 60 1 (omega arith) (omega arith) (omega arith)) e)
  ]

  pub refill_tokens-IsBounded :
      (s : RateLimiter F) (now : F) → IsBounded s → IsBounded (refill_tokens s now)
  unfolding refill_tokens
  refill_tokens-IsBounded s now b =
      let elapsed = N.minus now s.last_refill in
      let added = N.times elapsed s.rate_per_second in
      ground (
        arith,
        fmin-left s.options.burst_size (N.plus s.tokens added),
        fmin-glb s.options.burst_size (N.plus s.tokens added) nil,
        plus_grows s.tokens added,
        N.times_nonneg elapsed s.rate_per_second,
        N.leq_total nil elapsed,
        N.leq_trans nil s.tokens s.options.burst_size,
        N.leq_trans nil s.tokens (N.plus s.tokens added),
      )

  decayed-bounds :
      (n : ℕ) (floor : F)
      → lte nil floor ≡ true
      → lte floor (lit 20 1) ≡ true
      → (lte nil (decayed n floor) ≡ true) × (lte (decayed n floor) (lit 20 1) ≡ true)
  decayed-bounds zero floor low high =
      let k = N.times floor (lit 95 100) in
      ground (
        arith,
        N.leq_refl nil,
        N.ratio_mono 0 1 20 1 (omega arith) (omega arith) (omega arith),
        N.times_nonneg floor (lit 95 100) low
            (N.ratio_mono 0 1 95 100 (omega arith) (omega arith) (omega arith)),
        N.times_shrinks floor (lit 95 100) low
            (N.ratio_mono 95 100 1 1 (omega arith) (omega arith) (omega arith)),
        N.leq_trans k floor (lit 20 1),
      )
  decayed-bounds (suc n) floor low high =
      let k = N.times floor (lit 95 100) in
      ground (
        arith,
        N.ratio_mono 1 2 20 1 (omega arith) (omega arith) (omega arith),
        N.ratio_mono 0 1 1 2 (omega arith) (omega arith) (omega arith),
        N.times_shrinks floor (lit 95 100) low
            (N.ratio_mono 95 100 1 1 (omega arith) (omega arith) (omega arith)),
        N.leq_trans k floor (lit 20 1),
        N.leq_trans nil (lit 1 2) (fmax (lit 1 2) k),
        fmax-left (lit 1 2) k,
        fmax-lub (lit 1 2) k (lit 20 1),
      )

  next_floor-bounds :
      (s : RateLimiter F)
      → IsBounded s
      → (lte nil (next_floor s) ≡ true) × (lte (next_floor s) (lit 20 1) ≡ true)
  next_floor-bounds s b = ground (
    arith,
    decayed-bounds s.rate_limit_violations s.learned_floor b.floor_nonneg b.floor_cap,
    N.leq_total s.learned_floor (wanted_floor s),
    N.leq_trans nil s.learned_floor (wanted_floor s),
    fmin-left (lit 20 1) (uncapped_floor s),
  )

  floor-IsBounded : (s : RateLimiter F) → IsBounded s → IsBounded (calculate_minimum_floor s)
  unfolding calculate_minimum_floor
  floor-IsBounded s b = ground (arith, next_floor-bounds s b)

  pub reserve_slot-IsBounded :
      (s : RateLimiter F) (now later : F) → IsBounded s → IsBounded (reserve_slot s now later).0
  unfolding reserve_slot
  reserve_slot-IsBounded s now later b = ground (arith, next_floor-bounds s b)

  pub try_take-IsBounded :
      (recorded : Bool) (s : RateLimiter F) (now : F)
      → IsBounded s
      → IsBounded (try_take recorded s now).0
  try_take-IsBounded recorded s now b = ground (
    arith,
    N.minus_shrinks s.tokens (lit 1 1)
        (N.ratio_mono 0 1 1 1 (omega arith) (omega arith) (omega arith)),
    N.minus_nonneg s.tokens (lit 1 1),
    N.leq_trans (N.minus s.tokens (lit 1 1)) s.tokens s.options.burst_size,
    append_bounded-length 100 s.request_history now,
  )

  reduction-IsBounded :
      (s : RateLimiter F) (reduced : Option F) → IsBounded s → IsBounded (on_reduction s reduced).0
  reduction-IsBounded s none b = b
  reduction-IsBounded s (some q) b = ground arith

  pub apply_backoff-IsBounded :
      (s : RateLimiter F) (status : ℕ) (now : F)
      → IsBounded s
      → IsBounded (apply_adaptive_backoff s status now).0
  unfolding apply_adaptive_backoff
  apply_backoff-IsBounded s status now b =
      ground (
        arith,
        N.leq_refl nil,
        N.leq_trans nil s.tokens s.options.burst_size,
        next_floor-bounds s b,
      )
