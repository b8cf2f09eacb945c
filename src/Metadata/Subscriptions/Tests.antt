-- ===== src/Metadata/Subscriptions/Tests.antt =====
-- Runs of the subscription processing, and the conditions of its theorems at concrete inputs.
use fansly_scraper.Common.{
  true, false, not, Option, none, some, List, [], ◌∷◌, nat_beq, ◌≡◌, refl, arith, if◌then◌else◌,
  inl, inr,
}
use fansly_scraper.Common.Classes.{int_keyed, string_keyed}
use fansly_scraper.Common.Dict.{get, put}
use fansly_scraper.Common.Int.{ℤ, pos}
use fansly_scraper.Helpers.Json.{
  Value, obj, arr, str, float, int, bool, null, Fields, field, end, field_or_null, expect_int,
}
use fansly_scraper.Helpers.Result.{Result, ok, raise, store_error, ◌>>=◌}
use fansly_scraper.Metadata.Subscriptions.{
  Subscription, sub_activated, State, Outside, optional_int, status_of, tier_of,
  process_single_subscription,
}
use fansly_scraper.Metadata.Subscriptions.Access.{
  Result-cases, IsFaithful, with_saves, process-again, failed_write_hides_change,
}
use fansly_scraper.Metadata.Follows.{
  FollowEvent, record_follow_observation, is_followed, record_follow_observation_lem,
}

-- a field of the payload, or that of the cached subscription
abbrev merged : Value → Option ℤ → Result (Option ℤ)
unfolding expect_int
merged null cached = ok cached
merged v cached = optional_int v

-- a `model_validate` that reads the status and the tier
abbrev pydantic : Fields → Option Subscription → Result Subscription
pydantic fs cached = do
  status ← merged (field_or_null fs "status") (status_of cached)
  tier ← merged (field_or_null fs "subscriptionTierId") (tier_of cached)
  ok (record { status = status; tier_id = tier; version = none })

abbrev outside : Outside
outside = record {
  validate = pydantic;
  validate_plan = λ fs. ok fs;
  validate_promo = λ fs. ok fs;
  saves = λ fs. true;
}

abbrev nothing_cached : State
nothing_cached = record { subscriptions = []; access_changed = []; plans = []; promos = [] }

-- an active subscription of account 7
abbrev active : Fields
active = field "id" (int (pos 90)) (
    field "accountId" (int (pos 7))
      (field "status" (int (pos 3)) (field "subscriptionTierId" (int (pos 2)) end)))

activated :
    (process_single_subscription outside active nothing_cached).1 ≡ ok (some (pos 7, sub_activated))
unfolding process_single_subscription get field_or_null expect_int put
activated = refl

merged-set :
    (v : Value) (cached : Option ℤ) (n : ℤ)
    → optional_int v ≡ ok (some n)
    → merged v cached ≡ ok (some n)
unfolding merged optional_int
merged-set null cached n h = cc
merged-set (obj fs) cached n h = h
merged-set (arr vs) cached n h = h
merged-set (str s) cached n h = h
merged-set (float d) cached n h = h
merged-set (int m) cached n h = h
merged-set (bool b) cached n h = h

merged-again : (v : Value) (cached m : Option ℤ) → merged v cached ≡ ok m → merged v m ≡ ok m
unfolding merged
merged-again null cached m h = refl
merged-again (obj fs) cached m h = h
merged-again (arr vs) cached m h = h
merged-again (str s) cached m h = h
merged-again (float d) cached m h = h
merged-again (int k) cached m h = h
merged-again (bool b) cached m h = h

-- what a subscription that was read has read
pydantic-reads :
    (fs : Fields) (cached : Option Subscription) (sub : Subscription)
    → pydantic fs cached ≡ ok sub
    → (merged (field_or_null fs "status") (status_of cached) ≡ ok sub.status)
      × (merged (field_or_null fs "subscriptionTierId") (tier_of cached) ≡ ok sub.tier_id)
      × (sub.version ≡ none)
pydantic-reads fs cached sub h =
    elim (Result-cases (merged (field_or_null fs "status") (status_of cached))) [
      | inr (x, fails) ↦ ground (arith, fails)
      | inl (status, read) ↦
          elim (Result-cases (merged (field_or_null fs "subscriptionTierId") (tier_of cached))) [
            | inr (x, fails) ↦ ground (arith, read, fails)
            | inl (tier, also) ↦ ground (arith, read, also)
          ]
    ]

outside-IsFaithful : IsFaithful outside
outside-IsFaithful = record {
  status_set = λ fs cached sub n h v.
      let reads = pydantic-reads fs cached sub h in
      ground (arith, reads.0, merged-set (field_or_null fs "status") (status_of cached) n v);
  tier_set = λ fs cached sub n h v.
      let reads = pydantic-reads fs cached sub h in
      ground
        (arith, reads.1, merged-set (field_or_null fs "subscriptionTierId") (tier_of cached) n v);
  merges_again = λ fs cached sub h.
      let (status, tier, version) = pydantic-reads fs cached sub h in
      ground (
        arith,
        version,
        merged-again (field_or_null fs "status") (status_of cached) sub.status status,
        merged-again (field_or_null fs "subscriptionTierId") (tier_of cached) sub.tier_id tier,
      );
}

active_tier : optional_int (field_or_null active "subscriptionTierId") ≡ ok (some (pos 2))
unfolding optional_int field_or_null expect_int
active_tier = refl

process-again_example :
    (process_single_subscription outside active
      (process_single_subscription outside active nothing_cached).0).1
    ≡ ok none
process-again_example =
    process-again outside active (pos 2) nothing_cached (some (pos 7, sub_activated))
      outside-IsFaithful active_tier activated

failed_write_hides_change_example :
    let (t, result) =
      process_single_subscription (with_saves (λ fs. false) outside) active nothing_cached in
    (result ≡ raise store_error) × ((process_single_subscription outside active t).1 ≡ ok none)
failed_write_hides_change_example =
    failed_write_hides_change outside (λ fs. false) active (pos 2) nothing_cached
      (pos 7, sub_activated) outside-IsFaithful active_tier activated refl

-- account 7 was seen followed at 4, and account 8 at 6
abbrev follow_log : List FollowEvent
follow_log =
    record { account_id = 8; observed_at = 6; following_state = true }
    ∷ record { account_id = 7; observed_at = 4; following_state = true }
    ∷ []

unfollowed_once : (record_follow_observation 9 7 false follow_log).1 ≡ true
unfolding record_follow_observation
unfollowed_once = refl

record_follow_observation_lem_example :
    (is_followed 8 (record_follow_observation 9 7 false follow_log).0
      ≡ (if nat_beq 7 8 then false else is_followed 8 follow_log))
    × ((record_follow_observation 9 7 false follow_log).1
        ≡ (if is_followed 7 follow_log then not false else false))
    × (record_follow_observation 12 7 false (record_follow_observation 9 7 false follow_log).0
        ≡ ((record_follow_observation 9 7 false follow_log).0, false))
record_follow_observation_lem_example =
    record_follow_observation_lem 9 7 false follow_log 8 12 (omega arith, (omega arith, tt))
