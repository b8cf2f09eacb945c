-- ===== src/Api/RateLimiter/Slots.antt =====
-- The slots that successive reservations get.
use fansly_scraper.Common.{suc, ◌≡◌, refl, Bool, true, ◌&&◌, List, [], ◌∷◌, arith, if◌then◌else◌}
use fansly_scraper.Helpers.Floating.{Floating, lte, lt, nil, fmax, fmax-left, fmax-right}
use fansly_scraper.Api.RateLimiter.{RateLimiter, is_in_backoff, calculate_minimum_floor}
use fansly_scraper.Api.RateLimiter.Backoff.{backoff_end}
use fansly_scraper.Api.RateLimiter.Calls.{ready_at, target_of, reserve_slot}

module _ {F : Type 0} ⦃N : Floating F⦄ where
  -- the targets of successive reservations, each with its readings of the clock
  unfoldable pub reserve_targets : RateLimiter F → List (F × F) → List F
  reserve_targets s [] = []
  reserve_targets s ((now, later) ∷ clock) =
      let reserved = reserve_slot s now later in
      reserved.1.target ∷ reserve_targets reserved.0 clock

  -- Each target lies at least the interval after the one before.
  abbrev pub IsSpacedFrom : F → F → List F → Type 0
  IsSpacedFrom earliest interval [] = Unit
  IsSpacedFrom earliest interval (t ∷ ts) =
      (lte earliest t ≡ true) × IsSpacedFrom (N.plus t interval) interval ts

  -- What a target may not precede, where the source asks for it.
  abbrev pub backoff_bound : RateLimiter F → F → Bool → F
  backoff_bound s now in_backoff = if in_backoff then backoff_end s else now

  abbrev pub floor_bound : RateLimiter F → F → F → F
  floor_bound s now floor =
      if lt nil floor && lt nil s.last_request_time then N.plus s.last_request_time floor else now

  ready_at-bounds :
      (s : RateLimiter F) (now : F) (in_backoff : Bool)
      → (lte now (ready_at s now in_backoff) ≡ true)
        × (lte s.next_allowed_at (ready_at s now in_backoff) ≡ true)
        × (lte (backoff_bound s now in_backoff) (ready_at s now in_backoff) ≡ true)
  ready_at-bounds s now in_backoff =
      let first = fmax now s.next_allowed_at in
      let second = if in_backoff then backoff_end s else nil in
      let from_now =
        N.leq_trans now first (fmax first second) (fmax-left now s.next_allowed_at)
          (fmax-left first second) in
      (
        from_now,
        N.leq_trans s.next_allowed_at first (fmax first second) (fmax-right now s.next_allowed_at)
            (fmax-left first second),
        ground (arith, from_now, fmax-right first second),
      )

  target_of-bounds :
      (s : RateLimiter F) (ready earliest : F)
      → lte earliest ready ≡ true
      → (lte earliest (target_of s ready) ≡ true)
        × (lte (floor_bound s earliest s.learned_floor) (target_of s ready) ≡ true)
  target_of-bounds s ready earliest h =
      let paced = N.plus s.last_request_time s.learned_floor in
      ground (
        arith,
        fmax-left ready paced,
        fmax-right ready paced,
        N.leq_trans earliest ready (fmax ready paced),
      )

  -- A reservation gets a target that is not before the reading of the clock, the cursor, the end
  -- of a running back-off, or the last request plus a positive learned floor; it moves the cursor
  -- to the target plus the larger of the floor and the refill interval.
  pub reserve_slot_lem :
      (s : RateLimiter F) (now later : F)
      → let r = reserve_slot s now later in
        (lte now r.1.target ≡ true)
        × (lte s.next_allowed_at r.1.target ≡ true)
        × (lte (backoff_bound s now (is_in_backoff s later)) r.1.target ≡ true)
        × (lte (floor_bound s now r.1.floor) r.1.target ≡ true)
        × (r.0.next_allowed_at ≡ N.plus r.1.target (fmax r.1.floor s.token_refill_interval))
  unfolding reserve_slot
  reserve_slot_lem s now later =
      let s' = (calculate_minimum_floor (record s { total_requests = suc s.total_requests })) in
      let in_backoff = is_in_backoff s later in
      let ready = ready_at s' now in_backoff in
      let b = ready_at-bounds s' now in_backoff in
      (
        (target_of-bounds s' ready now b.0).0,
        (target_of-bounds s' ready s.next_allowed_at b.1).0,
        (target_of-bounds s' ready (backoff_bound s now in_backoff) b.2).0,
        (target_of-bounds s' ready now b.0).1,
        refl,
      )

  spaced_from :
      (s : RateLimiter F) (earliest : F) (clock : List (F × F))
      → lte earliest s.next_allowed_at ≡ true
      → IsSpacedFrom earliest s.token_refill_interval (reserve_targets s clock)
  unfolding reserve_targets reserve_slot
  spaced_from s earliest [] h = tt
  spaced_from s earliest ((now, later) ∷ clock) h =
      let r = reserve_slot s now later in
      let t = r.1.target in
      (
        N.leq_trans earliest s.next_allowed_at t h (reserve_slot_lem s now later).1,
        spaced_from r.0 (N.plus t s.token_refill_interval) clock (
            N.plus_mono t t s.token_refill_interval (fmax r.1.floor s.token_refill_interval)
              (N.leq_refl t) (fmax-right r.1.floor s.token_refill_interval)),
      )

  -- The targets of any number of reservations one after the other lie at least the refill interval
  -- apart, whatever the clock reads, and none is before the cursor that they start with.
  pub reservations_spaced :
      (s : RateLimiter F) (clock : List (F × F))
      → IsSpacedFrom s.next_allowed_at s.token_refill_interval (reserve_targets s clock)
  reservations_spaced s clock = spaced_from s s.next_allowed_at clock (N.leq_refl s.next_allowed_at)
