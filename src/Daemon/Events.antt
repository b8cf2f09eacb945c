-- ===== src/Daemon/Events.antt =====
-- daemon/runner.py: the handler of the WebSocket's service events, which wakes the simulator, applies
-- subscriptions and queues the work items of the dispatcher. `json.loads` and the subscriptions' own
-- surroundings are arguments.
pub mod Wakes
mod Tests
use fansly_scraper.Common.{
  ℕ, ◌+◌, ◌-◌, ◌*◌, ◌/◌, ◌%◌, Bool, true, false, not, ◌&&◌, ◌||◌, Option, none, some, List, [], ◌∷◌,
  ◌++◌, String, nat_beq, if◌then◌else◌,
}
use fansly_scraper.Common.Int.{ℤ, pos, negsuc, int_beq}
use fansly_scraper.Daemon.Handlers.{WorkItem, Handled, dispatch_ws_event}
use fansly_scraper.Daemon.Runner.{ErrorBudget, on_success}
use fansly_scraper.Daemon.Simulator.{Simulator, on_ws_event_during_hidden}
use fansly_scraper.Helpers.Json.{
  Value, obj, str, int, bool, Fields, end, field_or_null, get_field, expect_int, bool_int,
}
use fansly_scraper.Helpers.Result.{
  Result, ok, raise, Exception, type_error, value_error, overflow_error, key_error,
}
use fansly_scraper.Metadata.Subscriptions.{State, Reason, apply_subscription_ws_event}
use fansly_scraper.Metadata.Subscriptions as Subscriptions

pub record Daemon : Type 0 where
  pub simulator : Simulator
  pub subscriptions : State
  pub queue : List WorkItem
  pub budget : ErrorBudget
  pub chats : List (ℤ × Fields)

-- isinstance(value, int): a bool is one, too
abbrev pub int_of : Value → Option ℤ
int_of (int n) = some n
int_of (bool b) = some (bool_int b)
int_of _ = none

-- `notification_inner_to_service_event`
unfoldable pub notification_inner_to_service_event : ℕ → ℕ × ℕ
notification_inner_to_service_event inner_type = (inner_type / 1000, inner_type % 1000)

-- the payload, decoded: `none` where the decoding raises
abbrev pub decoded : (String → Option Value) → Value → Option Value
decoded decode (str text) = decode text
decoded decode v = some v

abbrev pub inner_of : Value → Fields
inner_of (obj fs) = fs
inner_of _ = end

-- the room of a chat message: KeyError, TypeError and ValueError are caught
abbrev pub caught_room : Result ℤ → Result (Option ℤ)
caught_room (ok n) = ok (some n)
caught_room (raise overflow_error) = raise overflow_error
caught_room (raise x) = ok none

abbrev pub room_of : Option Value → Result (Option ℤ)
unfolding expect_int
room_of none = ok none
room_of (some v) = caught_room (expect_int v)

abbrev pub route_chat : Fields → Result (Option ℤ) → Daemon → Daemon × Option Exception
route_chat message (raise x) d = (d, some x)
route_chat message (ok none) d = (d, none)
route_chat message (ok (some room)) d = (record d { chats = (room, message) ∷ d.chats }, none)

unfoldable pub on_chat : Value → Daemon → Daemon × Option Exception
unfolding room_of get_field
on_chat (obj message) d = route_chat message (room_of (get_field message "chatRoomId")) d
on_chat _ d = (d, none)

abbrev pub queue_item : ℕ → Handled → Daemon → Daemon × Option Exception
unfolding on_success
queue_item now (raise x) d = (d, some x)
queue_item now (ok none) d = (d, none)
queue_item now (ok (some item)) d =
    (record d { queue = d.queue ++ item ∷ []; budget = on_success now d.budget }, none)

module _ (outside : Subscriptions.Outside) where
  -- the subscription of a payload is applied, and whatever that raises is logged
  unfoldable pub apply_payload : Value → Daemon → Daemon
  unfolding apply_subscription_ws_event
  apply_payload (obj fs) d = record d {
    subscriptions = (apply_subscription_ws_event outside (obj fs) d.subscriptions).0;
  }
  apply_payload _ d = d

  abbrev pub apply_synthetic : Fields → Option ℤ → Daemon → Daemon
  unfolding apply_payload notification_inner_to_service_event field_or_null
  apply_synthetic notification (some (pos inner_type)) d =
      if nat_beq (notification_inner_to_service_event inner_type).0 15
      then apply_payload (field_or_null notification "subscription") d
      else d
  apply_synthetic notification (some (negsuc n)) d = d
  apply_synthetic notification none d = d

  abbrev pub apply_notification : Value → Daemon → Daemon
  unfolding apply_synthetic field_or_null
  apply_notification (obj fs) d = apply_synthetic fs (int_of (field_or_null fs "type")) d
  apply_notification _ d = d

  -- the subscriptions that an event carries: in a notification, or itself
  unfoldable pub apply_subscriptions : ℕ → ℕ → Fields → Daemon → Daemon
  unfolding apply_notification apply_payload field_or_null
  apply_subscriptions service_id event_type inner d =
      if nat_beq service_id 9 && nat_beq event_type 1
      then apply_notification (field_or_null inner "notification") d
      else if nat_beq service_id 15 && (nat_beq event_type 5 || nat_beq event_type 102)
      then apply_payload (field_or_null inner "subscription") d
      else d

  -- an event with its service and type
  unfoldable pub on_event : ℕ → ℕ → ℕ → ℕ → Fields → Daemon → Daemon × Option Exception
  unfolding on_ws_event_during_hidden on_chat apply_subscriptions queue_item dispatch_ws_event
  on_event tick now service_id event_type inner d =
      let woken : Daemon = record d {
        simulator = (on_ws_event_during_hidden service_id event_type tick d.simulator).0;
      } in
      if nat_beq service_id 46 && nat_beq event_type 10
      then on_chat (field_or_null inner "chatRoomMessage") woken
      else queue_item now (dispatch_ws_event service_id event_type inner)
          (apply_subscriptions service_id event_type inner woken)

  abbrev pub on_numbers : ℕ → ℕ → Option ℤ → Option ℤ → Fields → Daemon → Daemon × Option Exception
  unfolding on_event
  on_numbers tick now (some (pos service_id)) (some (pos event_type)) inner d =
      on_event tick now service_id event_type inner d
  on_numbers tick now service event inner d = (d, none)

  abbrev pub on_decoded : ℕ → ℕ → Option ℤ → Option Value → Daemon → Daemon × Option Exception
  unfolding on_numbers field_or_null
  on_decoded tick now service none d = (d, none)
  on_decoded tick now service (some v) d =
      on_numbers tick now service (int_of (field_or_null (inner_of v) "type")) (inner_of v) d

  -- `_on_service_event`: no service or event has a negative number
  unfoldable pub on_service_event :
      (String → Option Value) → ℕ → ℕ → Value → Daemon → Daemon × Option Exception
  unfolding on_decoded field_or_null
  on_service_event decode tick now (obj fs) d =
      on_decoded tick now (int_of (field_or_null fs "serviceId"))
        (decoded decode (field_or_null fs "event")) d
  on_service_event decode tick now _ d = (d, none)
