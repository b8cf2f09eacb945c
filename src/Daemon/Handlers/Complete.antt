-- ===== src/Daemon/Handlers/Complete.antt =====
-- What the payload asks for is what the dispatcher returns, if no number in it is infinite.
use mathlib.Core.Path.{subst}
use fansly_scraper.Common.{sym, any, ℕ, ◌≡◌, refl, inl, inr, true, false, Option, some, List, arith}
use fansly_scraper.Common.Int.{ℤ}
use fansly_scraper.Common.Dict.{get}
use fansly_scraper.Helpers.Result.{ok}
use fansly_scraper.Helpers.Json.{float, infinite, nil, cons, Items, Fields, items}
use fansly_scraper.Helpers.Json.Finite.{
  has_no_infinity, field_or_null-no_infinity, is_infinity, fields_no_infinity, safe_int-field,
  object-no_infinity, items_no_infinity,
}
use fansly_scraper.Daemon.Handlers.Tables.{Key, event_keyed, mem}
use fansly_scraper.Daemon.Handlers.{
  WorkItem, download_messages_for_group, full_creator_download, redownload_creator_media,
  check_creator_access, download_stories_only, download_timeline_only, mark_messages_deleted,
  handle_new_message, handle_subscription_event, handle_ppv_purchase, raw_ids,
  handle_message_deleted, handle_new_follow, dispatch_ws_event,
}
use fansly_scraper.Daemon.Handlers.Requests.{Requests, coerce_ids_lem}

new_message_complete :
    (event : Fields) (group : ℤ) (sender : Option ℤ)
    → fields_no_infinity event ≡ true
    → Requests (5, 1) event (download_messages_for_group group sender)
    → handle_new_message event ≡ ok (some (download_messages_for_group group sender))
unfolding handle_new_message Requests
new_message_complete event group sender fin (m, k, e, att, g, s) =
    let fin_m = object-no_infinity event m "message" fin e in
    let group_int = safe_int-field m "groupId" fin_m in
    let sender_int = safe_int-field m "senderId" fin_m in rw e (ground arith)

subscription_complete :
    (event : Fields) (creator : ℤ)
    → fields_no_infinity event ≡ true
    → Requests (15, 5) event (full_creator_download creator)
    → handle_subscription_event event ≡ ok (some (full_creator_download creator))
unfolding handle_subscription_event Requests
subscription_complete event creator fin (s, k, e, status, c) =
    let fin_s = object-no_infinity event s "subscription" fin e in
    let creator_int = safe_int-field s "accountId" fin_s in rw e (ground arith)

ppv_complete :
    (k : Key) (event : Fields) (creator : ℤ) (media bundle : Option ℤ)
    → fields_no_infinity event ≡ true
    → Requests k event (redownload_creator_media creator media bundle)
    → handle_ppv_purchase event ≡ ok (some (redownload_creator_media creator media bundle))
unfolding handle_ppv_purchase Requests
ppv_complete k event creator media bundle fin (o, key, e, c, m, b) =
    let fin_o = object-no_infinity event o "order" fin e in
    let creator_int = safe_int-field o "correlationAccountId" fin_o in
    let media_int = safe_int-field o "accountMediaId" fin_o in
    let bundle_int = safe_int-field o "accountMediaBundleId" fin_o in rw e (ground arith)

follow_complete :
    (event : Fields) (creator : ℤ)
    → fields_no_infinity event ≡ true
    → Requests (3, 2) event (check_creator_access creator)
    → handle_new_follow event ≡ ok (some (check_creator_access creator))
unfolding handle_new_follow Requests
follow_complete event creator fin (f, k, e, c) =
    let fin_f = object-no_infinity event f "follow" fin e in
    let creator_int = safe_int-field f "accountId" fin_f in rw e (ground arith)

pub ids-not_infinity :
    (vs : Items) → items_no_infinity vs ≡ true → any is_infinity (items vs) ≡ false
unfolding items_no_infinity has_no_infinity
ids-not_infinity nil h = refl
ids-not_infinity (cons (float (infinite b)) vs) h = cc
ids-not_infinity (cons v vs) h = ground (arith, ids-not_infinity vs)

pub raw_ids-no_infinity :
    (m : Fields) → fields_no_infinity m ≡ true → has_no_infinity (raw_ids m) ≡ true
unfolding raw_ids has_no_infinity
raw_ids-no_infinity m h =
    ground (arith, field_or_null-no_infinity m "ids", field_or_null-no_infinity m "messageIds")

deleted_complete :
    (event : Fields) (ids : List ℤ) (at : Option ℤ)
    → fields_no_infinity event ≡ true
    → Requests (5, 10) event (mark_messages_deleted ids at)
    → handle_message_deleted event ≡ ok (some (mark_messages_deleted ids at))
unfolding handle_message_deleted Requests has_no_infinity
deleted_complete event ids at fin (m, vs, k, e, raws, all_ids, some_id, a) =
    let fin_m = object-no_infinity event m "message" fin e in
    let fin_raws : items_no_infinity vs ≡ true = rw raws at (raw_ids-no_infinity m fin_m) in
    let coerced = coerce_ids_lem (items vs) in
    let no_inf = ids-not_infinity vs fin_raws in
    let single_int = safe_int-field m "id" fin_m in
    let at_int = safe_int-field m "deletedAt" fin_m in rw (e, raws) (ground arith)

along_key :
    (k j : Key) (event : Fields) (w : WorkItem)
    → k ≡ j
    → (Requests j event w → dispatch_ws_event j.0 j.1 event ≡ ok (some w))
    → Requests k event w
    → dispatch_ws_event k.0 k.1 event ≡ ok (some w)
along_key k j event w p f r =
    subst (λ i. dispatch_ws_event i.0 i.1 event ≡ ok (some w)) (sym p)
      (f (subst (λ i. Requests i event w) p r))

-- Whatever the event, if its payload holds no infinite number and asks for a work item, the
-- dispatcher returns that item.
pub dispatch_complete :
    (service_id event_type : ℕ) (event : Fields) (w : WorkItem)
    → fields_no_infinity event ≡ true
    → Requests (service_id, event_type) event w
    → dispatch_ws_event service_id event_type event ≡ ok (some w)
unfolding dispatch_ws_event Requests get mem
dispatch_complete svc ty event (download_messages_for_group g s) fin r =
    along_key (svc, ty) (5, 1) event _ r.1 (new_message_complete event g s fin) r
dispatch_complete svc ty event (full_creator_download c) fin r =
    along_key (svc, ty) (15, 5) event _ r.1 (subscription_complete event c fin) r
dispatch_complete svc ty event (redownload_creator_media c m b) fin r =
    let item = redownload_creator_media c m b in
    elim r.1 [
      | inl p ↦ along_key (svc, ty) (2, 7) event item p (ppv_complete (2, 7) event c m b fin) r
      | inr (inl p) ↦
          along_key (svc, ty) (2, 8) event item p (ppv_complete (2, 8) event c m b fin) r
      | inr (inr p) ↦
          along_key (svc, ty) (32, 7) event item p (ppv_complete (32, 7) event c m b fin) r
    ]
dispatch_complete svc ty event (check_creator_access c) fin r =
    along_key (svc, ty) (3, 2) event _ r.1 (follow_complete event c fin) r
dispatch_complete svc ty event (mark_messages_deleted ids at) fin r =
    along_key (svc, ty) (5, 10) event _ r.2 (deleted_complete event ids at fin) r
dispatch_complete svc ty event (download_stories_only c) fin r = absurd r
dispatch_complete svc ty event (download_timeline_only c) fin r = absurd r
