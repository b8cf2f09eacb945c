-- ===== src/Daemon/Handlers/Tests.antt =====
-- Payloads through the dispatcher, and its theorems at concrete inputs.
use fansly_scraper.Common.{◌≡◌, refl, true, false, none, some, [], ◌∷◌}
use fansly_scraper.Common.Int.{pos}
use fansly_scraper.Common.Dict.{get}
use fansly_scraper.Helpers.Result.{ok, raise, overflow_error, raises}
use fansly_scraper.Helpers.Json.{
  infinite, finite, Value, bool, int, float, str, arr, obj, nil, cons, Fields, end, field,
  field_or_null, truthy, equals_int, safe_int,
}
use fansly_scraper.Helpers.Json.Finite.{
  fields_no_infinity, items_no_infinity, has_no_infinity, safe_int_lem,
}
use fansly_scraper.Daemon.Simulator.{is_interrupt}
use fansly_scraper.Daemon.Handlers.Tables.{mem, event_keyed}
use fansly_scraper.Daemon.Handlers.{
  download_messages_for_group, full_creator_download, mark_messages_deleted, dispatch_ws_event,
  handle_new_message, handle_message_deleted, handle_subscription_event, dispatch_table,
  run_handler,
}
use fansly_scraper.Daemon.Handlers.Requests.{Requests}
use fansly_scraper.Daemon.Handlers.Sound.{dispatch-Requests}
use fansly_scraper.Daemon.Handlers.Complete.{dispatch_complete}
use fansly_scraper.Daemon.Handlers.Routing.{dispatch-eq-lookup, dispatch_returns}

abbrev attachments : Value
attachments = arr (cons (int (pos 1)) nil)

abbrev new_message : Fields
new_message =
    field "message"
      (obj (
        field "attachments" attachments
          (field "groupId" (str " 12_3 ") (field "senderId" (bool true) end))))
      end

new_message_item :
    dispatch_ws_event 5 1 new_message ≡ ok (some (download_messages_for_group (pos 123) none))
unfolding dispatch_ws_event get mem handle_new_message field_or_null truthy safe_int
new_message_item = refl

abbrev deletion : Fields
deletion =
    field "message"
      (obj (
        field "messageIds" (arr (cons (str "7") (cons (str "x") (cons (int (pos 8)) nil))))
          (field "id" (str "8") end)))
      end

deletion_item :
    dispatch_ws_event 5 10 deletion ≡ ok (some (mark_messages_deleted (pos 7 ∷ pos 8 ∷ []) none))
unfolding dispatch_ws_event get mem handle_message_deleted field_or_null truthy safe_int
deletion_item = refl

abbrev subscribed : Fields
subscribed =
    field "subscription"
      (obj (field "status" (float (finite (pos 12) 2)) (field "accountId" (str "55") end))) end

subscription_item : dispatch_ws_event 15 5 subscribed ≡ ok (some (full_creator_download (pos 55)))
unfolding dispatch_ws_event get mem handle_subscription_event field_or_null equals_int safe_int
subscription_item = refl

-- A group id of Infinity, which Python's JSON reader accepts.
abbrev endless : Fields
endless =
    field "message"
      (obj (field "attachments" attachments (field "groupId" (float (infinite false)) end))) end

endless_raises : dispatch_ws_event 5 1 endless ≡ raise overflow_error
unfolding dispatch_ws_event get mem handle_new_message field_or_null truthy safe_int
endless_raises = refl

new_message_finite : fields_no_infinity new_message ≡ true
unfolding fields_no_infinity items_no_infinity has_no_infinity
new_message_finite = refl

safe_int_lem_example : safe_int (float (infinite true)) ≡ raise overflow_error
safe_int_lem_example = safe_int_lem (float (infinite true))

dispatch-Requests_example : Requests (5, 1) new_message (download_messages_for_group (pos 123) none)
dispatch-Requests_example =
    dispatch-Requests 5 1 new_message (download_messages_for_group (pos 123) none) new_message_item

dispatch_complete_example :
    dispatch_ws_event 5 1 new_message ≡ ok (some (download_messages_for_group (pos 123) none))
dispatch_complete_example =
    dispatch_complete 5 1 new_message (download_messages_for_group (pos 123) none)
      new_message_finite dispatch-Requests_example

dispatch-eq-lookup_example :
    dispatch_ws_event 4 1 new_message ≡ run_handler (get dispatch_table (4, 1)) new_message
dispatch-eq-lookup_example = dispatch-eq-lookup 4 1 new_message

purchase_interrupts : is_interrupt 2 7 ≡ true
unfolding is_interrupt
purchase_interrupts = refl

dispatch_returns_example : raises (dispatch_ws_event 5 1 new_message) ≡ false
dispatch_returns_example = dispatch_returns 5 1 new_message new_message_finite
