-- ===== src/Daemon/Handlers/Requests.antt =====
-- When a payload asks for a work item, stated without the handlers; the dispatcher against it.
use fansly_scraper.Common.{
  ◌≡◌, refl, ◌⊎◌, true, false, some, List, [], ◌∷◌, arith, any, String, if◌then◌else◌,
}
use fansly_scraper.Common.Int.{ℤ, pos}
use fansly_scraper.Helpers.Result.{ok, raise, overflow_error}
use fansly_scraper.Helpers.Json.{
  Value, arr, obj, Items, Fields, items, field_or_null, truthy, equals_int,
}
use fansly_scraper.Helpers.Json.Finite.{int_value, is_infinity, safe_int_lem}
use fansly_scraper.Daemon.Handlers.Tables.{Key, event_keyed}
use fansly_scraper.Daemon.Handlers.{
  WorkItem, download_messages_for_group, full_creator_download, redownload_creator_media,
  check_creator_access, download_stories_only, download_timeline_only, mark_messages_deleted,
  Handled, with_object, coerce_ids, add_single, raw_ids, is_empty, keep_int,
}

-- the integers among the values of a list
unfoldable pub int_values : List Value → List ℤ
int_values [] = []
int_values (v ∷ vs) = keep_int (int_value v) (int_values vs)

abbrev pub HasObject : Fields → String → Fields → Type 0
HasObject event key fs = field_or_null event key ≡ obj fs

-- `Requests k event w`: an event of the kind `k` with this payload asks for the work item `w`.
unfoldable pub Requests : Key → Fields → WorkItem → Type 0
Requests k event (download_messages_for_group group sender) =
    (m : Fields) × (k ≡ (5, 1))
    × HasObject event "message" m
    × (truthy (field_or_null m "attachments") ≡ true)
    × (int_value (field_or_null m "groupId") ≡ some group)
    × (int_value (field_or_null m "senderId") ≡ sender)
Requests k event (full_creator_download creator) =
    (s : Fields) × (k ≡ (15, 5))
    × HasObject event "subscription" s
    × (equals_int (field_or_null s "status") (pos 3) ≡ true)
    × (int_value (field_or_null s "accountId") ≡ some creator)
Requests k event (redownload_creator_media creator media bundle) =
    (o : Fields) × ((k ≡ (2, 7)) ⊎ (k ≡ (2, 8)) ⊎ (k ≡ (32, 7)))
    × HasObject event "order" o
    × (int_value (field_or_null o "correlationAccountId") ≡ some creator)
    × (int_value (field_or_null o "accountMediaId") ≡ media)
    × (int_value (field_or_null o "accountMediaBundleId") ≡ bundle)
Requests k event (check_creator_access creator) =
    (f : Fields) × (k ≡ (3, 2))
    × HasObject event "follow" f
    × (int_value (field_or_null f "accountId") ≡ some creator)
Requests k event (mark_messages_deleted ids at) =
    (m : Fields) × (raws : Items) × (k ≡ (5, 10))
    × HasObject event "message" m
    × (raw_ids m ≡ arr raws)
    × (ids ≡ add_single (int_value (field_or_null m "id")) (int_values (items raws)))
    × (is_empty ids ≡ false)
    × (int_value (field_or_null m "deletedAt") ≡ at)
Requests k event (download_stories_only creator) = ⊥
Requests k event (download_timeline_only creator) = ⊥

pub with_object-some :
    (v : Value) (f : Fields → Handled) (w : WorkItem)
    → with_object v f ≡ ok (some w)
    → (fs : Fields) × (v ≡ obj fs) × (f fs ≡ ok (some w))
with_object-some (obj fs) f w h = (fs, refl, h)
with_object-some _ f w h = cc

-- The loop over the ids of a deletion: the integers among them, unless one is an infinite number.
pub coerce_ids_lem :
    (vs : List Value)
    → coerce_ids vs ≡ (if any is_infinity vs then raise overflow_error else ok (int_values vs))
unfolding coerce_ids int_values
coerce_ids_lem [] = refl
coerce_ids_lem (v ∷ vs) = ground (arith, safe_int_lem v, coerce_ids_lem vs)
