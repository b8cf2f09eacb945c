-- ===== src/Metadata/Subscriptions.antt =====
-- metadata/subscriptions.py: subscriptions, their plans, and the accounts whose access changed. What
-- pydantic makes of a payload is an argument, and so is whether each write of the database succeeds.
pub mod Access
pub mod Tests
use fansly_scraper.Common.{
  ℕ, ◌+◌, Bool, true, false, not, ◌&&◌, ◌||◌, Option, none, some, List, [], ◌∷◌, String,
  if◌then◌else◌,
}
use fansly_scraper.Common.Classes.{◌==◌, int_keyed, string_keyed}
use fansly_scraper.Common.Dict.{Dict, get, put, pop}
use fansly_scraper.Common.Int.{ℤ, pos, int_ltb, int_beq}
use fansly_scraper.Helpers.Json.{
  Value, obj, arr, null, Fields, field, field_or_null, items, expect_int, expect_dict, expect_list,
  end,
}
use fansly_scraper.Helpers.Result.{Result, ok, raise, store_error, ◌>>=◌}

pub record Subscription : Type 0 where
  pub status : Option ℤ
  pub tier_id : Option ℤ
  pub version : Option ℤ

pub data Reason : Type 0 where
  sub_activated : Reason
  tier_upgraded : Reason

-- the cached subscriptions by id, the registry of access changes by account, and the plans and
-- promos that were saved, the last first
pub record State : Type 0 where
  pub subscriptions : Dict ℤ Subscription
  pub access_changed : Dict ℤ Reason
  pub plans : List Fields
  pub promos : List Fields

-- What is outside this code: `model_validate` of a payload, for a subscription into the cached one of
-- the same id if there is one, and whether the database takes the write of a payload.
pub record Outside : Type 0 where
  pub validate : Fields → Option Subscription → Result Subscription
  pub validate_plan : Fields → Result Fields
  pub validate_promo : Fields → Result Fields
  pub saves : Fields → Bool

-- `consume_access_change`
unfoldable pub consume_access_change : ℤ → State → State × Option Reason
consume_access_change account s =
    (record s { access_changed = pop s.access_changed account }, get s.access_changed account)

-- `_is_active`
unfoldable pub is_active : Option ℤ → Bool
is_active none = false
is_active (some status) = int_beq status (pos 3)

-- value is None
abbrev pub is_null : Value → Bool
is_null null = true
is_null _ = false

abbrev pub status_of : Option Subscription → Option ℤ
status_of none = none
status_of (some sub) = sub.status

abbrev pub tier_of : Option Subscription → Option ℤ
tier_of none = none
tier_of (some sub) = sub.tier_id

-- expect_int(v) if v is not None else None
unfoldable pub optional_int : Value → Result (Option ℤ)
unfolding expect_int
optional_int null = ok none
optional_int v = do n ← expect_int v; ok (some n)

abbrev pub is_same_tier : Option ℤ → Option ℤ → Bool
is_same_tier none none = true
is_same_tier (some m) (some n) = int_beq m n
is_same_tier _ _ = false

-- the access change, by the status and tier of before and those of the payload
unfoldable pub access_change : Option ℤ → Option ℤ → Option ℤ → Option ℤ → Option Reason
unfolding is_active
access_change old_status old_tier new_status new_tier =
    if is_active new_status && not (is_active old_status)
    then some sub_activated
    else if is_active new_status && is_active old_status && not (is_same_tier old_tier new_tier)
    then some tier_upgraded
    else none

unfoldable pub with_account : Value → Option Reason → Result (Option (ℤ × Reason))
unfolding expect_int
with_account account none = ok none
with_account account (some reason) = do n ← expect_int account; ok (some (n, reason))

abbrev pub noted : State × Result (Option (ℤ × Reason)) → State × Result (Option (ℤ × Reason))
noted (s, raise x) = (s, raise x)
noted (s, ok none) = (s, ok none)
noted (s, ok (some (account, reason))) =
    (record s { access_changed = put s.access_changed account reason }, ok (some (account, reason)))

-- the version of the cached subscription, if there are both
abbrev pub version_of : Option Subscription → Option ℤ
version_of none = none
version_of (some sub) = sub.version

-- whether the payload is older than the cached subscription; its version is read last
unfoldable pub is_stale : Value → Option ℤ → Result Bool
unfolding expect_int
is_stale incoming none = ok false
is_stale incoming (some cached) =
    if is_null incoming then ok false else do n ← expect_int incoming; ok (int_ltb n cached)

module _ (outside : Outside) where
  unfoldable pub saved_subscription :
      Fields
      → Value
      → ℤ
      → Option ℤ
      → Option ℤ
      → State
      → Result Subscription
      → State × Result (Option (ℤ × Reason))
  unfolding access_change with_account
  saved_subscription fs account id status tier s (raise x) = (s, raise x)
  saved_subscription fs account id status tier s (ok sub) =
      let prev = get s.subscriptions id in
      let t : State = record s { subscriptions = put s.subscriptions id sub } in
      let change = access_change (status_of prev) (tier_of prev) status tier in
      if outside.saves fs then (t, with_account account change) else (t, raise store_error)

  unfoldable pub with_tier :
      Fields
      → Value
      → ℤ
      → Option ℤ
      → State
      → Result (Option ℤ)
      → State × Result (Option (ℤ × Reason))
  unfolding saved_subscription
  with_tier fs account id status s (raise x) = (s, raise x)
  with_tier fs account id status s (ok tier) =
      saved_subscription fs account id status tier s (outside.validate fs (get s.subscriptions id))

  unfoldable pub with_status :
      Fields → Value → ℤ → State → Result (Option ℤ) → State × Result (Option (ℤ × Reason))
  unfolding with_tier optional_int field_or_null
  with_status fs account id s (raise x) = (s, raise x)
  with_status fs account id s (ok status) =
      with_tier fs account id status s (optional_int (field_or_null fs "subscriptionTierId"))

  unfoldable pub with_id : Fields → Value → State → Result ℤ → State × Result (Option (ℤ × Reason))
  unfolding with_status optional_int field_or_null
  with_id fs account s (raise x) = (s, raise x)
  with_id fs account s (ok id) =
      with_status fs account id s (optional_int (field_or_null fs "status"))

  unfoldable pub process_fields :
      Fields → Value → Value → State → State × Result (Option (ℤ × Reason))
  unfolding with_id expect_int
  process_fields fs id account s =
      if is_null id || is_null account then (s, ok none) else with_id fs account s (expect_int id)

  -- `_process_single_subscription`
  unfoldable pub process_single_subscription : Fields → State → State × Result (Option (ℤ × Reason))
  unfolding process_fields field_or_null
  process_single_subscription fs s =
      process_fields fs (field_or_null fs "id") (field_or_null fs "accountId") s

  -- `apply_subscription_snapshot`
  unfoldable pub apply_subscription_snapshot : Value → State → State × Result (Option (ℤ × Reason))
  unfolding process_single_subscription
  apply_subscription_snapshot (obj fs) s = process_single_subscription fs s
  apply_subscription_snapshot _ s = (s, ok none)

  unfoldable pub unless_stale : Fields → State → Result Bool → State × Result (Option (ℤ × Reason))
  unfolding process_single_subscription
  unless_stale fs s (raise x) = (s, raise x)
  unless_stale fs s (ok true) = (s, ok none)
  unless_stale fs s (ok false) = noted (process_single_subscription fs s)

  unfoldable pub apply_known : Fields → State → Result ℤ → State × Result (Option (ℤ × Reason))
  unfolding unless_stale is_stale field_or_null
  apply_known fs s (raise x) = (s, raise x)
  apply_known fs s (ok id) =
      unless_stale fs s
        (is_stale (field_or_null fs "version") (version_of (get s.subscriptions id)))

  unfoldable pub apply_fields : Fields → Value → State → State × Result (Option (ℤ × Reason))
  unfolding apply_known expect_int
  apply_fields fs id s = if is_null id then (s, ok none) else apply_known fs s (expect_int id)

  -- `apply_subscription_ws_event`
  unfoldable pub apply_subscription_ws_event : Value → State → State × Result (Option (ℤ × Reason))
  unfolding apply_fields field_or_null
  apply_subscription_ws_event (obj fs) s = apply_fields fs (field_or_null fs "id") s
  apply_subscription_ws_event _ s = (s, ok none)

-- d.pop(key, None), as the dict that is left
unfoldable pub without_field : String → Fields → Fields
without_field k end = end
without_field k (field j v fs) =
    let rest = without_field k fs in if j == k then rest else field j v rest

-- {**d, key: v}
unfoldable pub with_field : String → Value → Fields → Fields
with_field k v end = field k v end
with_field k v (field j w fs) =
    let rest = with_field k v fs in if j == k then field j v fs else field j w rest

abbrev pub then_all :
    State × Result {0} Unit → (State → State × Result {0} Unit) → State × Result {0} Unit
then_all (s, raise x) rest = (s, raise x)
then_all (s, ok u) rest = rest s

abbrev pub count_change : ℕ → State × Result (Option (ℤ × Reason)) → State × Result ℕ
count_change added (s, raise x) = (s, raise x)
count_change added (s, ok none) = (s, ok added)
count_change added (s, ok (some change)) = (s, ok (added + 1))

abbrev pub then_count : State × Result ℕ → (ℕ → State → State × Result ℕ) → State × Result ℕ
then_count (s, raise x) rest = (s, raise x)
then_count (s, ok added) rest = rest added s

module _ (outside : Outside) where
  abbrev pub save_promo : Fields → State → Result Fields → State × Result {0} Unit
  save_promo payload s (raise x) = (s, raise x)
  save_promo payload s (ok promo) =
      if outside.saves payload
      then (record s { promos = promo ∷ s.promos }, ok tt)
      else (s, raise store_error)

  -- the loop over the promos of a plan
  unfoldable pub save_promos : Value → List Value → State → State × Result {0} Unit
  unfolding with_field
  save_promos plan_id [] s = (s, ok tt)
  save_promos plan_id (obj fs ∷ vs) s =
      let payload = with_field "planId" plan_id fs in
      then_all (save_promo payload s (outside.validate_promo payload)) (save_promos plan_id vs)
  save_promos plan_id (_ ∷ vs) s = save_promos plan_id vs s

  abbrev pub save_plan : Fields → State → Result Fields → State × Result {0} Unit
  save_plan payload s (raise x) = (s, raise x)
  save_plan payload s (ok plan) =
      if outside.saves payload
      then (record s { plans = plan ∷ s.plans }, ok tt)
      else (s, raise store_error)

  unfoldable pub plan_promos : Value → Value → State → State × Result {0} Unit
  unfolding save_promos
  plan_promos plan_id (arr vs) s = save_promos plan_id (items vs) s
  plan_promos plan_id _ s = (s, ok tt)

  unfoldable pub process_plan_fields : Fields → Value → Value → State → State × Result {0} Unit
  unfolding plan_promos without_field field_or_null
  process_plan_fields fs id account s =
      let payload = without_field "promos" fs in
      if is_null id || is_null account
      then (s, ok tt)
      else then_all (save_plan payload s (outside.validate_plan payload))
          (plan_promos id (field_or_null fs "promos"))

  -- `_process_single_plan`
  unfoldable pub process_single_plan : Fields → State → State × Result {0} Unit
  unfolding process_plan_fields field_or_null
  process_single_plan fs s =
      process_plan_fields fs (field_or_null fs "id") (field_or_null fs "accountId") s

  unfoldable pub process_plan_value : State → Result Fields → State × Result {0} Unit
  unfolding process_single_plan
  process_plan_value s (raise x) = (s, raise x)
  process_plan_value s (ok fs) = process_single_plan fs s

  unfoldable pub process_plans : List Value → State → State × Result {0} Unit
  unfolding process_plan_value expect_dict
  process_plans [] s = (s, ok tt)
  process_plans (v ∷ vs) s = then_all (process_plan_value s (expect_dict v)) (process_plans vs)

  unfoldable pub process_sub_value : State → Result Fields → State × Result (Option (ℤ × Reason))
  unfolding process_single_subscription
  process_sub_value s (raise x) = (s, raise x)
  process_sub_value s (ok fs) = noted (process_single_subscription outside fs s)

  unfoldable pub process_subs : List Value → ℕ → State → State × Result ℕ
  unfolding process_sub_value expect_dict
  process_subs [] added s = (s, ok added)
  process_subs (v ∷ vs) added s =
      then_count (count_change added (process_sub_value s (expect_dict v))) (process_subs vs)

  unfoldable pub list_plans : Value → State → State × Result {0} Unit
  unfolding process_plans
  list_plans null s = (s, ok tt)
  list_plans (arr vs) s = process_plans (items vs) s
  list_plans v s = elim (expect_list v) [ raise x ↦ (s, raise x) | ok vs ↦ process_plans vs s ]

  unfoldable pub list_subs : Value → State → State × Result ℕ
  unfolding process_subs
  list_subs null s = (s, ok 0)
  list_subs v s = elim (expect_list v) [ raise x ↦ (s, raise x) | ok vs ↦ process_subs vs 0 s ]

  unfoldable pub after_plans : Fields → State × Result {0} Unit → State × Result ℕ
  unfolding list_subs field_or_null
  after_plans response (s, raise x) = (s, raise x)
  after_plans response (s, ok u) = list_subs (field_or_null response "subscriptions") s

  -- `process_subscriptions_response`
  unfoldable pub process_subscriptions_response : Fields → State → State × Result ℕ
  unfolding list_plans after_plans field_or_null
  process_subscriptions_response response s =
      after_plans response (list_plans (field_or_null response "subscriptionPlans") s)
