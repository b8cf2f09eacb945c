-- ===== src/Daemon/Handlers.antt =====
-- daemon/handlers.py: decoded WebSocket events to work items, and the tables that route them.
-- A payload is a JSON object; a handler returns a work item, None, or the exception it lets through.
pub mod Tables
pub mod Requests
pub mod Sound
pub mod Complete
pub mod Routing
mod Tests
use fansly_scraper.Common.{
  ℕ, Bool, true, false, not, ◌||◌, Option, none, some, List, [], ◌∷◌, ◌++◌, is_some, if◌then◌else◌,
}
use fansly_scraper.Common.Int.{ℤ, pos, int_beq}
use fansly_scraper.Common.Dict.{Dict, get}
use fansly_scraper.Helpers.Result.{Result, ok, ◌>>=◌}
use fansly_scraper.Helpers.Json.{
  Value, arr, obj, nil, Fields, items, field_or_null, truthy, equals_int, safe_int,
}
use fansly_scraper.Daemon.Handlers.Tables.{Key, event_keyed, noop_keys, gathering_keys, mem}

pub data WorkItem : Type 0 where
  download_messages_for_group : ℤ → Option ℤ → WorkItem
  full_creator_download : ℤ → WorkItem
  redownload_creator_media : ℤ → Option ℤ → Option ℤ → WorkItem
  check_creator_access : ℤ → WorkItem
  download_stories_only : ℤ → WorkItem
  download_timeline_only : ℤ → WorkItem
  mark_messages_deleted : List ℤ → Option ℤ → WorkItem

abbrev pub Handled : Type 0
Handled = Result (Option WorkItem)

-- `x = event.get(key)`, then `if not isinstance(x, dict): return None`
abbrev pub with_object : Value → (Fields → Handled) → Handled
with_object (obj fs) f = f fs
with_object _ f = ok none

-- `if x is None: return None`
abbrev pub with_int : Option ℤ → (ℤ → Handled) → Handled
with_int none f = ok none
with_int (some n) f = f n

unfoldable pub handle_new_message : Fields → Handled
handle_new_message event = with_object (field_or_null event "message") λ message.
    if truthy (field_or_null message "attachments")
    then (do
      group_id ← safe_int (field_or_null message "groupId")
      with_int group_id λ group. do
        sender_id ← safe_int (field_or_null message "senderId")
        ok (some (download_messages_for_group group sender_id)))
    else ok none

unfoldable pub handle_subscription_event : Fields → Handled
handle_subscription_event event = with_object (field_or_null event "subscription") λ subscription.
    if equals_int (field_or_null subscription "status") (pos 3)
    then (do
      creator_id ← safe_int (field_or_null subscription "accountId")
      with_int creator_id λ creator. ok (some (full_creator_download creator)))
    else ok none

unfoldable pub handle_ppv_purchase : Fields → Handled
handle_ppv_purchase event = with_object (field_or_null event "order") λ order. do
  creator_id ← safe_int (field_or_null order "correlationAccountId")
  with_int creator_id λ creator. do
    media ← safe_int (field_or_null order "accountMediaId")
    bundle ← safe_int (field_or_null order "accountMediaBundleId")
    ok (some (redownload_creator_media creator media bundle))

abbrev pub keep_int : Option ℤ → List ℤ → List ℤ
keep_int none ids = ids
keep_int (some n) ids = n ∷ ids

-- the loop over `raw_ids`
unfoldable pub coerce_ids : List Value → Result (List ℤ)
coerce_ids [] = ok []
coerce_ids (v ∷ vs) = do n ← safe_int v; ids ← coerce_ids vs; ok (keep_int n ids)

abbrev pub mem_int : ℤ → List ℤ → Bool
mem_int n [] = false
mem_int n (m ∷ ms) = int_beq m n || mem_int n ms

-- `if single is not None and single not in ids: ids.append(single)`
unfoldable pub add_single : Option ℤ → List ℤ → List ℤ
add_single none ids = ids
add_single (some n) ids = if mem_int n ids then ids else ids ++ n ∷ []

-- `message.get("ids") or message.get("messageIds") or []`
unfoldable pub raw_ids : Fields → Value
raw_ids message =
    if truthy (field_or_null message "ids")
    then field_or_null message "ids"
    else if truthy (field_or_null message "messageIds")
    then field_or_null message "messageIds"
    else arr nil

abbrev pub with_items : Value → (List Value → Handled) → Handled
with_items (arr vs) f = f (items vs)
with_items _ f = ok none

abbrev pub is_empty : List ℤ → Bool
is_empty [] = true
is_empty (n ∷ ns) = false

unfoldable pub handle_message_deleted : Fields → Handled
unfolding raw_ids coerce_ids add_single
handle_message_deleted event = with_object (field_or_null event "message") λ message.
    with_items (raw_ids message) λ raws. do
      coerced ← coerce_ids raws
      single ← safe_int (field_or_null message "id")
      let ids = add_single single coerced
      if is_empty ids then ok none else (do
        at ← safe_int (field_or_null message "deletedAt")
        ok (some (mark_messages_deleted ids at)))

unfoldable pub handle_new_follow : Fields → Handled
handle_new_follow event = with_object (field_or_null event "follow") λ follow. do
  creator_id ← safe_int (field_or_null follow "accountId")
  with_int creator_id λ creator. ok (some (check_creator_access creator))

-- Observation only: the account id is coerced for the log line.
unfoldable pub handle_account_profile_updated : Fields → Handled
handle_account_profile_updated event =
    with_object (field_or_null event "account")
      λ account. do account_id ← safe_int (field_or_null account "id"); ok none

-- These only log.
unfoldable pub handle_wallet_event : Fields → Handled
handle_wallet_event event = ok none

unfoldable pub handle_wallet_transaction : Fields → Handled
handle_wallet_transaction event = ok none

abbrev pub Handler : Type 0
Handler = Fields → Handled

-- `_DISPATCH`
abbrev pub dispatch_table : Dict Key Handler
dispatch_table =
    ((5, 1), handle_new_message)
    ∷ ((5, 10), handle_message_deleted)
    ∷ ((15, 5), handle_subscription_event)
    ∷ ((2, 7), handle_ppv_purchase)
    ∷ ((2, 8), handle_ppv_purchase)
    ∷ ((3, 2), handle_new_follow)
    ∷ ((6, 2), handle_wallet_event)
    ∷ ((6, 3), handle_wallet_transaction)
    ∷ ((12, 2), handle_account_profile_updated)
    ∷ ((32, 7), handle_ppv_purchase)
    ∷ []

unfoldable pub has_handler : ℕ → ℕ → Bool
has_handler service_id event_type =
    is_some (get dispatch_table (service_id, event_type))
    || mem noop_keys (service_id, event_type)
    || mem gathering_keys (service_id, event_type)

abbrev pub run_handler : Option Handler → Handler
run_handler none event = ok none
run_handler (some handler) event = handler event

unfoldable pub dispatch_ws_event : ℕ → ℕ → Fields → Handled
dispatch_ws_event service_id event_type event =
    if mem noop_keys (service_id, event_type)
    then ok none
    else if mem gathering_keys (service_id, event_type)
    then ok none
    else run_handler (get dispatch_table (service_id, event_type)) event
