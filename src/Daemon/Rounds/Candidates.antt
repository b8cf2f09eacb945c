-- ===== src/Daemon/Rounds/Candidates.antt =====
-- daemon/runner.py: which creators of a poll of the home timeline are queued.
use mathlib.Core.List.{append-nil, append_assoc}
use fansly_scraper.Common.{
  ℕ, Bool, true, false, ◌&&◌, Option, none, List, [], ◌∷◌, ◌++◌, map, if◌then◌else◌, ◌≡◌, refl, sym,
  ap, arith, inl, inr, Bool-cases,
}
use fansly_scraper.Common.Classes.{◌==◌, int_keyed}
use fansly_scraper.Common.Dict.{Dict, get}
use fansly_scraper.Common.Int.{ℤ}
use fansly_scraper.Common.Sets.{are_distinct, member, add, member-add}
use fansly_scraper.Daemon.Filters.{Loaded, Response}
use fansly_scraper.Daemon.Handlers.{download_timeline_only}
use fansly_scraper.Daemon.Polling.{or_empty}
use fansly_scraper.Daemon.Rounds.{
  Round, enqueue, behind_scope, should, baseline_for, process_timeline_candidate, timeline_round,
}
use fansly_scraper.Daemon.Runner.{Config, Outside, Scope, in_scope, out_of_scope, unknown}
use fansly_scraper.Daemon.Runner.Items.{creator_scope}
use fansly_scraper.Helpers.Json.{Value, Fields}
use fansly_scraper.Helpers.Timestamp.{Datetime}

unfoldable pub chosen : (ℤ → Bool) → List ℤ → List ℤ
chosen p [] = []
chosen p (c ∷ cs) = let rest = chosen p cs in if p c then c ∷ rest else rest

abbrev pub is_in_scope : Scope → Bool
is_in_scope in_scope = true
is_in_scope out_of_scope = false
is_in_scope (unknown e) = false

abbrev pub is_known : Scope → Bool
is_known in_scope = true
is_known out_of_scope = true
is_known (unknown e) = false

chosen-same :
    (p q : ℤ → Bool) (cs : List ℤ)
    → ((c : ℤ) → member c cs ≡ true → p c ≡ q c)
    → chosen p cs ≡ chosen q cs
unfolding chosen member
chosen-same p q [] same = refl
chosen-same p q (c ∷ cs) same =
    let rest = chosen-same p q cs (λ d h. same d (ground (arith, h))) in
    let first = same c (ground (arith, int_keyed.same_iff c c)) in ground (arith, rest, first)

-- a creator that is past its scope check, with the verdict on it
settle-lem :
    (scope : Scope) (verdict : Bool) (now : ℕ) (c : ℤ) (r : Round)
    → is_known scope ≡ true
    → let noted : Round = record r { consumed = add c r.consumed } in
      let (t, failure) =
        behind_scope scope
          (if verdict then enqueue now (download_timeline_only c) noted else noted)
          r in
      (failure ≡ none)
      × (t.queue
          ≡ r.queue
            ++ map download_timeline_only (if is_in_scope scope && verdict then c ∷ [] else []))
      × ((d : ℤ) → c == d ≡ false → member d t.consumed ≡ member d r.consumed)
unfolding enqueue
settle-lem in_scope true now c r known =
    (refl, refl, λ d other. ground (arith, other, member-add d c r.consumed))
settle-lem in_scope false now c r known =
    (refl, sym (append-nil r.queue), λ d other. ground (arith, other, member-add d c r.consumed))
settle-lem out_of_scope verdict now c r known = (refl, sym (append-nil r.queue), λ d other. refl)
settle-lem (unknown e) verdict now c r known = absurd (ground (arith, known))

module _ (dt : Datetime) (outside : Outside) (config : Config) (fetch : ℤ → ℕ → Value → Response)
    (loaded : ℤ → Loaded dt.Instant) (session : Option dt.Instant) where
  -- in scope, and with new content against the baseline
  abbrev pub is_due : List ℤ → Dict ℤ (List Fields) → ℤ → Bool
  is_due consumed posts c =
      is_in_scope (creator_scope outside config c)
      && should dt outside config fetch loaded session c (or_empty (get posts c))
          (baseline_for dt outside config fetch loaded session consumed c)

  baseline-same :
      (s t : List ℤ) (c : ℤ)
      → member c s ≡ member c t
      → baseline_for dt outside config fetch loaded session s c
        ≡ baseline_for dt outside config fetch loaded session t c
  unfolding baseline_for
  baseline-same s t c h = ap (λ b. if b then none else session) h

  candidate-lem :
      (now : ℕ) (posts : Dict ℤ (List Fields)) (c : ℤ) (r : Round)
      → is_known (creator_scope outside config c) ≡ true
      → let (t, failure) =
          process_timeline_candidate dt outside config fetch loaded session now c
            (or_empty (get posts c))
            r in
        (failure ≡ none)
        × (t.queue
            ≡ r.queue
              ++ map download_timeline_only (if is_due r.consumed posts c then c ∷ [] else []))
        × ((d : ℤ) → c == d ≡ false → member d t.consumed ≡ member d r.consumed)
  unfolding process_timeline_candidate
  candidate-lem now posts c r known =
      let posted = or_empty (get posts c) in
      settle-lem (creator_scope outside config c)
        (should dt outside config fetch loaded session c posted
          (baseline_for dt outside config fetch loaded session r.consumed c))
        now c r known

  -- If the lookup of no creator's account fails, a round over distinct creators of a poll queues a
  -- timeline download for exactly those that are in scope and have new content, in the order of the
  -- poll, each checked against the session's baseline if it was not checked before the round and
  -- against its own otherwise.
  pub timeline_round_lem :
      (now : ℕ) (posts : Dict ℤ (List Fields)) (cs : List ℤ) (r : Round)
      → are_distinct cs ≡ true
      → ((c : ℤ) → is_known (creator_scope outside config c) ≡ true)
      → let (t, failure) = timeline_round dt outside config fetch loaded session now posts cs r in
        (failure ≡ none)
        × (t.queue ≡ r.queue ++ map download_timeline_only (chosen (is_due r.consumed posts) cs))
  unfolding timeline_round chosen are_distinct
  timeline_round_lem now posts [] r distinct known = (refl, sym (append-nil r.queue))
  timeline_round_lem now posts (c ∷ cs) r distinct known =
      let step =
        process_timeline_candidate dt outside config fetch loaded session now c
          (or_empty (get posts c)) r in
      let (fine, asked, kept) = candidate-lem now posts c r (known c) in
      let (ends, queued) =
        timeline_round_lem now posts cs step.0 (ground (arith, distinct)) known in
      let same : chosen (is_due step.0.consumed posts) cs ≡ chosen (is_due r.consumed posts) cs =
        chosen-same (is_due step.0.consumed posts) (is_due r.consumed posts) cs λ d inside.
          let other = kept d (ground (arith, distinct, inside, int_keyed.same_iff c d)) in
          ap
            (λ b.
              is_in_scope (creator_scope outside config d)
              && should dt outside config fetch loaded session d (or_empty (get posts d)) b)
            (baseline-same step.0.consumed r.consumed d other) in
      let split =
        append_assoc r.queue
          (map download_timeline_only (if is_due r.consumed posts c then c ∷ [] else []))
          (map download_timeline_only (chosen (is_due r.consumed posts) cs)) in
      elim (Bool-cases (is_due r.consumed posts c)) [
        | inl due ↦ ground (arith, fine, asked, ends, queued, same, split, due)
        | inr not_due ↦ ground (arith, fine, asked, ends, queued, same, split, not_due)
      ]
