-- ===== src/Metadata/Subscriptions/Access.antt =====
-- The access changes that a subscription payload brings.
use fansly_scraper.Common.{
  Bool, true, false, ◌||◌, Option, none, some, ◌≡◌, ◌⊎◌, inl, inr, refl, arith, Bool-cases,
  Option-cases,
}
use fansly_scraper.Common.Classes.{int_keyed, string_keyed}
use fansly_scraper.Common.Dict.{get, get-put}
use fansly_scraper.Common.Int.{ℤ, pos, int_ltb, int_beq_iff}
use fansly_scraper.Helpers.Json.{Value, obj, Fields, field_or_null, expect_int}
use fansly_scraper.Helpers.Result.{Result, Exception, ok, raise, store_error}
use fansly_scraper.Metadata.Subscriptions.{
  Subscription, Reason, sub_activated, tier_upgraded, State, Outside, is_active, is_null, status_of,
  tier_of, optional_int, is_same_tier, access_change, with_account, saved_subscription, with_tier,
  with_status, with_id, process_fields, process_single_subscription, version_of, is_stale,
  unless_stale, apply_known, apply_fields, apply_subscription_ws_event,
}

pub Result-cases {ℓ} :
    {T : Type ℓ} (r : Result T) → ((t : T) × (r ≡ ok t)) ⊎ ((x : Exception) × (r ≡ raise x))
Result-cases (ok t) = inl (t, refl)
Result-cases (raise x) = inr (x, refl)

module _ (outside : Outside) where
  -- How a payload is processed, whatever the state: not at all, with an exception, or into a
  -- subscription.
  data Shape (fs : Fields) : Type 0 where
    skipped : ((s : State) → process_single_subscription outside fs s ≡ (s, ok none)) → Shape fs
    refused :
        (x : Exception)
        → ((s : State) → process_single_subscription outside fs s ≡ (s, raise x))
        → Shape fs
    stored :
        (account : Value) (id : ℤ) (status tier : Option ℤ)
        → expect_int (field_or_null fs "id") ≡ ok id
        → optional_int (field_or_null fs "status") ≡ ok status
        → optional_int (field_or_null fs "subscriptionTierId") ≡ ok tier
        → ((s : State)
            → process_single_subscription outside fs s
              ≡ saved_subscription outside fs account id status tier s
                  (outside.validate fs (get s.subscriptions id)))
        → Shape fs

  with_id-Shape :
      (fs : Fields) (account : Value) (r : Result ℤ)
      → expect_int (field_or_null fs "id") ≡ r
      → ((s : State) → process_single_subscription outside fs s ≡ with_id outside fs account s r)
      → Shape fs
  unfolding with_id with_status with_tier
  with_id-Shape fs account (raise x) is_id h = refused x h
  with_id-Shape fs account (ok id) is_id h =
      elim (Result-cases (optional_int (field_or_null fs "status"))) [
        | inr (x, fails) ↦ refused x (λ s. ground (arith, h s, fails))
        | inl (status, has_status) ↦
            elim (Result-cases (optional_int (field_or_null fs "subscriptionTierId"))) [
              | inr (x, fails) ↦ refused x (λ s. ground (arith, h s, has_status, fails))
              | inl (tier, has_tier) ↦
                  stored account id status tier is_id has_status has_tier
                    (λ s. ground (arith, h s, has_status, has_tier))
            ]
      ]

  shape_of : (fs : Fields) → Shape fs
  unfolding process_single_subscription process_fields
  shape_of fs =
      let id = field_or_null fs "id" in
      let account = field_or_null fs "accountId" in
      elim (Bool-cases (is_null id || is_null account)) [
        | inl missing ↦ skipped (λ s. ground (arith, missing))
        | inr known ↦ with_id-Shape fs account (expect_int id) refl (λ s. ground (arith, known))
      ]

  -- What `model_validate` of a subscription is documented to do: a status or a tier of the payload
  -- becomes that of the subscription, and a payload that was merged once merges again unchanged.
  pub record IsFaithful : Type 0 where
    pub status_set :
        (fs : Fields) (cached : Option Subscription) (sub : Subscription) (n : ℤ)
        → outside.validate fs cached ≡ ok sub
        → optional_int (field_or_null fs "status") ≡ ok (some n)
        → sub.status ≡ some n
    pub tier_set :
        (fs : Fields) (cached : Option Subscription) (sub : Subscription) (n : ℤ)
        → outside.validate fs cached ≡ ok sub
        → optional_int (field_or_null fs "subscriptionTierId") ≡ ok (some n)
        → sub.tier_id ≡ some n
    pub merges_again :
        (fs : Fields) (cached : Option Subscription) (sub : Subscription)
        → outside.validate fs cached ≡ ok sub
        → outside.validate fs (some sub) ≡ ok sub

  access_change-steady :
      (sub : Subscription) (status : Option ℤ) (tier : ℤ)
      → ((n : ℤ) → status ≡ some n → sub.status ≡ some n)
      → sub.tier_id ≡ some tier
      → access_change sub.status sub.tier_id status (some tier) ≡ none
  unfolding access_change is_active
  access_change-steady sub none tier set same = refl
  access_change-steady sub (some n) tier set same =
      ground (arith, set n refl, same, (int_beq_iff tier tier).1 refl)

  saved_subscription-again :
      (fs : Fields) (account : Value) (id : ℤ) (status : Option ℤ) (tier : ℤ) (s t : State)
      (result : Result (Option (ℤ × Reason))) (r : Option (ℤ × Reason))
      → IsFaithful
      → optional_int (field_or_null fs "status") ≡ ok status
      → optional_int (field_or_null fs "subscriptionTierId") ≡ ok (some tier)
      → saved_subscription outside fs account id status
          (some tier)
          s
          (outside.validate fs (get s.subscriptions id))
        ≡ (t, result)
      → result ≡ ok r
      → (saved_subscription outside fs account id status
          (some tier)
          t
          (outside.validate fs (get t.subscriptions id))).1
        ≡ ok none
  unfolding saved_subscription
  saved_subscription-again fs account id status tier s t result r f has_status has_tier h returned =
      elim (Result-cases (outside.validate fs (get s.subscriptions id))) [
        | inr (x, fails) ↦ ground (arith, fails)
        | inl (sub, validated) ↦
            let placed : get t.subscriptions id ≡ some sub =
              ground
                (arith, validated, get-put s.subscriptions id id sub, (int_beq_iff id id).1 refl) in
            let again = f.merges_again fs (get s.subscriptions id) sub validated in
            let steady =
              access_change-steady sub status tier
                (λ n e. f.status_set fs (get s.subscriptions id) sub n validated (ground arith))
                (f.tier_set fs (get s.subscriptions id) sub tier validated has_tier) in
            let saved : outside.saves fs ≡ true = ground (arith, validated) in
            ground (arith, placed, again, steady, saved)
      ]

  -- A payload with a tier that was processed without an exception, processed again in the state that
  -- it left, brings no access change, for a `model_validate` that does what it is documented to do.
  pub process-again :
      (fs : Fields) (tier : ℤ) (s : State) (r : Option (ℤ × Reason))
      → IsFaithful
      → optional_int (field_or_null fs "subscriptionTierId") ≡ ok (some tier)
      → (process_single_subscription outside fs s).1 ≡ ok r
      → (process_single_subscription outside fs (process_single_subscription outside fs s).0).1
        ≡ ok none
  process-again fs tier s r f has_tier h =
      let t = (process_single_subscription outside fs s).0 in
      elim (shape_of fs) [
        | skipped same ↦ ground (arith, same t)
        | refused x same ↦ ground (arith, same s)
        | stored account id status none is_id has_status has_none same ↦ ground arith
        | stored account id status (some n) is_id has_status has_n same ↦
            let known : n ≡ tier = ground arith in
            let result = (process_single_subscription outside fs s).1 in
            let again =
              saved_subscription-again fs account id status n s t result r f has_status has_n
                (ground (arith, same s)) h in
            ground (arith, same t, again)
      ]

-- the same surroundings, with other writes
abbrev pub with_saves : (Fields → Bool) → Outside → Outside
with_saves saves outside = record outside { saves = saves }

-- Whether the write succeeds makes no difference to the cached subscriptions.
process-with_saves :
    (outside : Outside) (saves : Fields → Bool) (fs : Fields) (s : State)
    → (process_single_subscription (with_saves saves outside) fs s).0
      ≡ (process_single_subscription outside fs s).0
unfolding process_single_subscription process_fields with_id with_status with_tier
    saved_subscription
process-with_saves outside saves fs s =
    let id = field_or_null fs "id" in
    let account = field_or_null fs "accountId" in
    elim (Result-cases (expect_int id)) [
      | inr (x, fails) ↦ ground (arith, fails)
      | inl (n, has_id) ↦ elim (Result-cases (optional_int (field_or_null fs "status"))) [
        | inr (x, fails) ↦ ground (arith, has_id, fails)
        | inl (status, has_status) ↦
            elim (Result-cases (optional_int (field_or_null fs "subscriptionTierId"))) [
              | inr (x, fails) ↦ ground (arith, has_id, has_status, fails)
              | inl (tier, has_tier) ↦
                  elim (Result-cases (outside.validate fs (get s.subscriptions n))) [
                    | inr (x, fails) ↦ ground (arith, has_id, has_status, has_tier, fails)
                    | inl (sub, valid) ↦ ground (arith, has_id, has_status, has_tier, valid)
                  ]
            ]
      ]
    ]

-- A payload that would bring an access change raises where its write fails.
process-unsaved :
    (outside : Outside) (saves : Fields → Bool) (fs : Fields) (s : State) (change : ℤ × Reason)
    → saves fs ≡ false
    → (process_single_subscription outside fs s).1 ≡ ok (some change)
    → (process_single_subscription (with_saves saves outside) fs s).1 ≡ raise store_error
unfolding process_single_subscription process_fields with_id with_status with_tier
    saved_subscription
process-unsaved outside saves fs s change unsaved h =
    let id = field_or_null fs "id" in
    let account = field_or_null fs "accountId" in
    elim (Result-cases (expect_int id)) [
      | inr (x, fails) ↦ ground (arith, h, fails)
      | inl (n, has_id) ↦ elim (Result-cases (optional_int (field_or_null fs "status"))) [
        | inr (x, fails) ↦ ground (arith, h, has_id, fails)
        | inl (status, has_status) ↦
            elim (Result-cases (optional_int (field_or_null fs "subscriptionTierId"))) [
              | inr (x, fails) ↦ ground (arith, h, has_id, has_status, fails)
              | inl (tier, has_tier) ↦
                  elim (Result-cases (outside.validate fs (get s.subscriptions n))) [
                    | inr (x, fails) ↦ ground (arith, h, has_id, has_status, has_tier, fails)
                    | inl (sub, valid) ↦
                        ground (arith, h, unsaved, has_id, has_status, has_tier, valid)
                  ]
            ]
      ]
    ]

-- A payload with a tier that brings an access change where its write succeeds, for a `model_validate`
-- that does what it is documented to do. If the write fails, the call raises and brings no change, and
-- the same payload again, whose write then succeeds, brings none either: the change is lost.
pub failed_write_hides_change :
    (outside : Outside) (saves : Fields → Bool) (fs : Fields) (tier : ℤ) (s : State)
    (change : ℤ × Reason)
    → IsFaithful outside
    → optional_int (field_or_null fs "subscriptionTierId") ≡ ok (some tier)
    → (process_single_subscription outside fs s).1 ≡ ok (some change)
    → saves fs ≡ false
    → let (t, result) = process_single_subscription (with_saves saves outside) fs s in
      (result ≡ raise store_error) × ((process_single_subscription outside fs t).1 ≡ ok none)
failed_write_hides_change outside saves fs tier s change f has_tier h unsaved =
    let same = process-with_saves outside saves fs s in
    let again = process-again outside fs tier s (some change) f has_tier h in
    (process-unsaved outside saves fs s change unsaved h, ground (arith, same, again))

module _ (outside : Outside) where
  with_account-reason :
      (account : Value) (change : Option Reason) (n : ℤ) (reason : Reason)
      → with_account account change ≡ ok (some (n, reason))
      → change ≡ some reason
  unfolding with_account
  with_account-reason account none n reason h = cc
  with_account-reason account (some r) n reason h = elim (Result-cases (expect_int account)) [
    | inl (m, counted) ↦ ground (arith, counted)
    | inr (x, fails) ↦ ground (arith, fails)
  ]

  access_change-reason :
      (old_status old_tier new_status new_tier : Option ℤ) (reason : Reason)
      → access_change old_status old_tier new_status new_tier ≡ some reason
      → (new_status ≡ some (pos 3))
        × (((is_active old_status ≡ false) × (reason ≡ sub_activated))
            ⊎ ((old_status ≡ some (pos 3))
                × (is_same_tier old_tier new_tier ≡ false)
                × (reason ≡ tier_upgraded)))
  unfolding access_change is_active
  access_change-reason old_status old_tier none new_tier reason h = cc
  access_change-reason none old_tier (some n) new_tier reason h =
      ground (arith, int_beq_iff n (pos 3))
  access_change-reason (some m) old_tier (some n) new_tier reason h =
      ground (arith, int_beq_iff n (pos 3), int_beq_iff m (pos 3))

  -- An access change that a payload brings: its id is a number and its status is active; the reason
  -- is `sub_activated` if the subscription cached under the id was missing or not active, and
  -- otherwise `tier_upgraded`, with a tier that differs from the cached one.
  pub process-reason :
      (fs : Fields) (s : State) (account : ℤ) (reason : Reason)
      → (process_single_subscription outside fs s).1 ≡ ok (some (account, reason))
      → (id : ℤ) × (tier : Option ℤ) × (expect_int (field_or_null fs "id") ≡ ok id)
        × (optional_int (field_or_null fs "subscriptionTierId") ≡ ok tier)
        × (optional_int (field_or_null fs "status") ≡ ok (some (pos 3)))
        × (((is_active (status_of (get s.subscriptions id)) ≡ false) × (reason ≡ sub_activated))
            ⊎ ((status_of (get s.subscriptions id) ≡ some (pos 3))
                × (is_same_tier (tier_of (get s.subscriptions id)) tier ≡ false)
                × (reason ≡ tier_upgraded)))
  unfolding saved_subscription
  process-reason fs s n reason h = elim (shape_of outside fs) [
    | skipped same ↦ ground (arith, same s)
    | refused x same ↦ ground (arith, same s)
    | stored account id status tier is_id has_status has_tier same ↦
        elim (Result-cases (outside.validate fs (get s.subscriptions id))) [
          | inr (x, fails) ↦ ground (arith, same s, fails)
          | inl (sub, valid) ↦
              let prev = get s.subscriptions id in
              let change = access_change (status_of prev) (tier_of prev) status tier in
              let brought : with_account account change ≡ ok (some (n, reason)) =
                ground (arith, same s, valid) in
              let why =
                access_change-reason (status_of prev) (tier_of prev) status tier reason
                  (with_account-reason account change n reason brought) in
              (id, tier, is_id, has_tier, ground (arith, has_status, why.0), why.1)
        ]
  ]

  -- An event whose version is below that of the cached subscription changes nothing and brings no
  -- access change.
  pub apply_ws-stale :
      (fs : Fields) (id version cached : ℤ) (s : State)
      → is_null (field_or_null fs "id") ≡ false
      → expect_int (field_or_null fs "id") ≡ ok id
      → is_null (field_or_null fs "version") ≡ false
      → expect_int (field_or_null fs "version") ≡ ok version
      → version_of (get s.subscriptions id) ≡ some cached
      → int_ltb version cached ≡ true
      → apply_subscription_ws_event outside (obj fs) s ≡ (s, ok none)
  unfolding apply_subscription_ws_event apply_fields apply_known is_stale unless_stale
  apply_ws-stale fs id version cached s some_id is_id some_version is_version has_version older =
      elim (Option-cases (get s.subscriptions id)) [
        | inl absent ↦ ground (arith, absent)
        | inr (sub, found) ↦ ground (arith, found)
      ]
