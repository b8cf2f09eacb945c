-- ===== src/Metadata/Follows.antt =====
-- metadata/subscriptions.py: the log of follow observations. The events are the cached ones; a save
-- caches a new one. Times count whole ticks.

use fansly_scraper.Common.{
  ℕ, ◌<◌, Bool, true, false, not, Option, none, some, List, [], ◌∷◌, All, leb, nat_beq, nat_beq_iff,
  if◌then◌else◌, ◌≡◌, refl, arith, inl, inr, Bool-cases,
}
use fansly_scraper.Metadata.Searches.{head?}
use fansly_scraper.Metadata.Sorting.{insert_sorted, stable_sort}
use fansly_scraper.Metadata.Sorting.Stable.{stable_sort-All}

pub record FollowEvent : Type 0 where
  pub account_id : ℕ
  pub observed_at : ℕ
  pub following_state : Bool

-- the events of an account, by `filter`
unfoldable pub events_of : ℕ → List FollowEvent → List FollowEvent
events_of account [] = []
events_of account (e ∷ es) =
    let rest = events_of account es in if nat_beq e.account_id account then e ∷ rest else rest

-- sorted by observed_at, in reverse
abbrev pub is_later : FollowEvent → FollowEvent → Bool
is_later d e = leb e.observed_at d.observed_at

unfoldable pub latest_event : ℕ → List FollowEvent → Option FollowEvent
unfolding events_of stable_sort
latest_event account es = head? (stable_sort is_later (events_of account es))

abbrev pub is_steady : Option FollowEvent → Bool → Bool
is_steady none following = not following
is_steady (some e) true = e.following_state
is_steady (some e) false = not e.following_state

-- `record_follow_observation`: the events afterwards, and whether one was added
unfoldable pub record_follow_observation : ℕ → ℕ → Bool → List FollowEvent → List FollowEvent × Bool
unfolding latest_event
record_follow_observation now account following es =
    if is_steady (latest_event account es) following then (es, false) else (
      record { account_id = account; observed_at = now; following_state = following } ∷ es,
      true,
    )

-- what the log says of an account: its latest state, and not followed if there is none
abbrev pub state_of : Option FollowEvent → Bool
state_of none = false
state_of (some e) = e.following_state

unfoldable pub is_followed : ℕ → List FollowEvent → Bool
unfolding latest_event
is_followed account es = state_of (latest_event account es)

insert_sorted-head :
    (d : FollowEvent) (es : List FollowEvent)
    → All (λ e. e.observed_at < d.observed_at) es
    → head? (insert_sorted is_later d es) ≡ some d
unfolding insert_sorted
insert_sorted-head d [] h = refl
insert_sorted-head d (e ∷ es) h = ground (arith, h.0)

-- All events of the log are before a time.
abbrev pub IsBefore : ℕ → List FollowEvent → Type 0
IsBefore now es = All (λ e. e.observed_at < now) es

events_of-IsBefore :
    (now account : ℕ) (es : List FollowEvent)
    → IsBefore now es
    → IsBefore now (events_of account es)
unfolding events_of
events_of-IsBefore now account [] h = tt
events_of-IsBefore now account (e ∷ es) h = elim (Bool-cases (nat_beq e.account_id account)) [
  | inl same ↦ rw (same) (h.0, events_of-IsBefore now account es h.1)
  | inr other ↦ rw (other) (events_of-IsBefore now account es h.1)
]

latest-added :
    (now account : ℕ) (following : Bool) (es : List FollowEvent) (other : ℕ)
    → IsBefore now es
    → latest_event other
        (record { account_id = account; observed_at = now; following_state = following } ∷ es)
      ≡ (if nat_beq account other
          then some
              (record { account_id = account; observed_at = now; following_state = following })
          else latest_event other es)
unfolding latest_event events_of stable_sort
latest-added now account following es other h =
    let d : FollowEvent = record {
      account_id = account;
      observed_at = now;
      following_state = following;
    } in
    let sorted =
      stable_sort-All (λ e. e.observed_at < now) is_later (events_of other es)
        (events_of-IsBefore now other es h) in
    ground (arith, insert_sorted-head d (stable_sort is_later (events_of other es)) sorted)

is_steady-state :
    (latest : Option FollowEvent) (following : Bool)
    → is_steady latest following ≡ (if state_of latest then following else not following)
is_steady-state none following = refl
is_steady-state (some e) true = ground arith
is_steady-state (some e) false = ground arith

is_steady-event : (e : FollowEvent) → is_steady (some e) e.following_state ≡ true
is_steady-event e = ground (arith, is_steady-state (some e) e.following_state)

-- An observation at a time after all events of the log: the log then says of the account what was
-- observed and of others what it said before, an event was added exactly if the log said otherwise
-- of the account, and the same observation at any time adds none.
pub record_follow_observation_lem :
    (now account : ℕ) (following : Bool) (es : List FollowEvent) (other later : ℕ)
    → IsBefore now es
    → (is_followed other (record_follow_observation now account following es).0
        ≡ (if nat_beq account other then following else is_followed other es))
      × ((record_follow_observation now account following es).1
          ≡ (if is_followed account es then not following else following))
      × (record_follow_observation later account following
            (record_follow_observation now account following es).0
          ≡ ((record_follow_observation now account following es).0, false))
unfolding record_follow_observation is_followed
record_follow_observation_lem now account following es other later h =
    let d : FollowEvent = record {
      account_id = account;
      observed_at = now;
      following_state = following;
    } in
    let own = latest-added now account following es account h in
    let others = latest-added now account following es other h in
    let same = (nat_beq_iff account account).1 refl in
    let says = is_steady-state (latest_event account es) following in
    elim (Bool-cases (is_steady (latest_event account es) following)) [
      | inl steady ↦ (
        ground (arith, steady, says, nat_beq_iff account other),
        ground (arith, steady, says),
        ground (arith, steady),
      )
      | inr change ↦ (
        ground (arith, change, others),
        ground (arith, change, says),
        ground (arith, change, own, same, is_steady-event d),
      )
    ]
