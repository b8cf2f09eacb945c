-- ===== src/Daemon/Handlers/Sound.antt =====
-- Every work item that the dispatcher returns is one that the payload asks for.
use fansly_scraper.Common.{ℕ, ◌≡◌, refl, ◌≢◌, ◌⊎◌, inl, inr, some, List, arith, All, Option-cases}
use fansly_scraper.Common.Dict.{get, get-All}
use fansly_scraper.Helpers.Result.{ok}
use fansly_scraper.Helpers.Json.{Value, arr, Items, Fields, items, field_or_null}
use fansly_scraper.Helpers.Json.Finite.{safe_int_lem}
use fansly_scraper.Daemon.Handlers.Tables.{Key, event_keyed}
use fansly_scraper.Daemon.Handlers.{
  WorkItem, download_messages_for_group, full_creator_download, redownload_creator_media,
  check_creator_access, mark_messages_deleted, Handled, with_items, handle_new_message,
  handle_subscription_event, handle_ppv_purchase, raw_ids, handle_message_deleted,
  handle_new_follow, handle_account_profile_updated, handle_wallet_event, handle_wallet_transaction,
  Handler, dispatch_table, dispatch_ws_event,
}
use fansly_scraper.Daemon.Handlers.Requests.{Requests, coerce_ids_lem, with_object-some}

new_message-Requests :
    (event : Fields) (w : WorkItem)
    → handle_new_message event ≡ ok (some w)
    → Requests (5, 1) event w
unfolding handle_new_message Requests
new_message-Requests event (download_messages_for_group group sender) h =
    let (m, e, g) = with_object-some (field_or_null event "message") _ _ h in
    let group_int = safe_int_lem (field_or_null m "groupId") in
    let sender_int = safe_int_lem (field_or_null m "senderId") in
    (m, refl, e, ground arith, ground arith, ground arith)
new_message-Requests event w h =
    let (m, e, g) = with_object-some (field_or_null event "message") _ _ h in absurd (ground arith)

subscription_event-Requests :
    (event : Fields) (w : WorkItem)
    → handle_subscription_event event ≡ ok (some w)
    → Requests (15, 5) event w
unfolding handle_subscription_event Requests
subscription_event-Requests event (full_creator_download creator) h =
    let (s, e, g) = with_object-some (field_or_null event "subscription") _ _ h in
    let creator_int = safe_int_lem (field_or_null s "accountId") in
    (s, refl, e, ground arith, ground arith)
subscription_event-Requests event w h =
    let (s, e, g) = with_object-some (field_or_null event "subscription") _ _ h in
    absurd (ground arith)

ppv_purchase-Requests :
    (k : Key) (event : Fields) (w : WorkItem)
    → (k ≡ (2, 7)) ⊎ (k ≡ (2, 8)) ⊎ (k ≡ (32, 7))
    → handle_ppv_purchase event ≡ ok (some w)
    → Requests k event w
unfolding handle_ppv_purchase Requests
ppv_purchase-Requests k event (redownload_creator_media creator media bundle) key h =
    let (o, e, g) = with_object-some (field_or_null event "order") _ _ h in
    let creator_int = safe_int_lem (field_or_null o "correlationAccountId") in
    let media_int = safe_int_lem (field_or_null o "accountMediaId") in
    let bundle_int = safe_int_lem (field_or_null o "accountMediaBundleId") in
    (o, key, e, ground arith, ground arith, ground arith)
ppv_purchase-Requests k event w key h =
    let (o, e, g) = with_object-some (field_or_null event "order") _ _ h in absurd (ground arith)

new_follow-Requests :
    (event : Fields) (w : WorkItem)
    → handle_new_follow event ≡ ok (some w)
    → Requests (3, 2) event w
unfolding handle_new_follow Requests
new_follow-Requests event (check_creator_access creator) h =
    let (f, e, g) = with_object-some (field_or_null event "follow") _ _ h in
    let creator_int = safe_int_lem (field_or_null f "accountId") in (f, refl, e, ground arith)
new_follow-Requests event w h =
    let (f, e, g) = with_object-some (field_or_null event "follow") _ _ h in absurd (ground arith)

with_items-some :
    (v : Value) (f : List Value → Handled) (w : WorkItem)
    → with_items v f ≡ ok (some w)
    → (vs : Items) × (v ≡ arr vs) × (f (items vs) ≡ ok (some w))
with_items-some (arr vs) f w h = (vs, refl, h)
with_items-some _ f w h = cc

message_deleted-Requests :
    (event : Fields) (w : WorkItem)
    → handle_message_deleted event ≡ ok (some w)
    → Requests (5, 10) event w
unfolding handle_message_deleted Requests
message_deleted-Requests event (mark_messages_deleted ids at) h =
    let (m, e, g) = with_object-some (field_or_null event "message") _ _ h in
    let (vs, e', g') = with_items-some (raw_ids m) _ _ g in
    let single_int = safe_int_lem (field_or_null m "id") in
    let at_int = safe_int_lem (field_or_null m "deletedAt") in
    let coerced = coerce_ids_lem (items vs) in
    (m, vs, refl, e, e', ground arith, ground arith, ground arith)
message_deleted-Requests event w h =
    let (m, e, g) = with_object-some (field_or_null event "message") _ _ h in
    let (vs, e', g') = with_items-some (raw_ids m) _ _ g in absurd (ground arith)

profile_updated_none :
    (event : Fields) (w : WorkItem) → handle_account_profile_updated event ≢ ok (some w)
unfolding handle_account_profile_updated
profile_updated_none event w h =
    let (a, e, g) = with_object-some (field_or_null event "account") _ _ h in ground arith

module _ (event : Fields) (w : WorkItem) where
  handler-Requests :
      All
        (λ (entry : Key × Handler). entry.1 event ≡ ok (some w) → Requests entry.0 event w)
        dispatch_table
  unfolding handle_wallet_event handle_wallet_transaction handle_account_profile_updated
  handler-Requests = (
    new_message-Requests event w,
    (
      message_deleted-Requests event w,
      (
        subscription_event-Requests event w,
        (
          ppv_purchase-Requests (2, 7) event w (inl refl),
          (
            ppv_purchase-Requests (2, 8) event w (inr (inl refl)),
            (
              new_follow-Requests event w,
              (
                λ h. absurd (cc),
                (
                  λ h. absurd (cc),
                  (
                    λ h. absurd (profile_updated_none event w h),
                    (ppv_purchase-Requests (32, 7) event w (inr (inr refl)), tt),
                  ),
                ),
              ),
            ),
          ),
        ),
      ),
    ),
  )

dispatch-get :
    (k : Key) (event : Fields) (w : WorkItem)
    → dispatch_ws_event k.0 k.1 event ≡ ok (some w)
    → (handler : Handler) × (get dispatch_table k ≡ some handler) × (handler event ≡ ok (some w))
unfolding dispatch_ws_event
dispatch-get k event w h = elim (Option-cases (get dispatch_table k)) [
  | inl e ↦ absurd (ground arith)
  | inr (handler, e) ↦ (handler, e, ground arith)
]

-- Whatever the event, a work item that the dispatcher returns is one that the payload asks for:
-- it is of the kind that belongs to the pair of service and type, and its fields are the integers
-- that the payload holds.
pub dispatch-Requests :
    (service_id event_type : ℕ) (event : Fields) (w : WorkItem)
    → dispatch_ws_event service_id event_type event ≡ ok (some w)
    → Requests (service_id, event_type) event w
dispatch-Requests service_id event_type event w h =
    let (handler, e, returned) = dispatch-get (service_id, event_type) event w h in
    get-All (λ entry. entry.1 event ≡ ok (some w) → Requests entry.0 event w) dispatch_table
      (service_id, event_type) handler (handler-Requests event w) e returned
