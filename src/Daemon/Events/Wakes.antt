-- ===== src/Daemon/Events/Wakes.antt =====
-- daemon/runner.py: what a service event does to the simulator, the queue and the error budget.
use mathlib.Core.List.{append-nil}
use fansly_scraper.Common.{
  ℕ, Bool, true, ◌&&◌, Option, none, some, List, [], ◌∷◌, ◌++◌, nat_beq, ◌≡◌, refl, sym, all, not,
  arith,
}
use fansly_scraper.Common.Dict.{get}
use fansly_scraper.Common.Int.{ℤ, pos, negsuc}
use fansly_scraper.Daemon.Handlers.{WorkItem, Handled, Handler, dispatch_table}
use fansly_scraper.Daemon.Handlers.Tables.{event_keyed}
use fansly_scraper.Daemon.Handlers.Routing.{any-all, interrupt_dispatched}
use fansly_scraper.Daemon.Events.{
  Daemon, int_of, apply_payload, apply_synthetic, apply_notification, apply_subscriptions,
  queue_item, on_event,
}
use fansly_scraper.Daemon.Runner.{ErrorBudget, on_success}
use fansly_scraper.Daemon.Simulator.{
  active, is_hidden, is_interrupt, interrupt_events, on_ws_event_during_hidden,
}
use fansly_scraper.Helpers.Json.{Value, obj, Fields, field_or_null}
use fansly_scraper.Helpers.Result.{ok, raise, Exception}
use fansly_scraper.Metadata.Subscriptions as Subscriptions

abbrev is_other : ℕ × ℕ → Bool
is_other (service_id, event_type) = not (nat_beq service_id 46 && nat_beq event_type 10)

interrupts_other : all is_other interrupt_events ≡ true
interrupts_other = refl

-- the items that a handler's result adds to the queue
abbrev pub queued : Handled → List WorkItem
queued (ok (some item)) = item ∷ []
queued (ok none) = []
queued (raise x) = []

abbrev pub exception_of : Handled → Option Exception
exception_of (ok r) = none
exception_of (raise x) = some x

abbrev pub budget_after : ℕ → Handled → ErrorBudget → ErrorBudget
unfolding on_success
budget_after now (ok (some item)) b = on_success now b
budget_after now _ b = b

abbrev pub Frame : Daemon → Daemon → Type 0
Frame d t =
    (t.simulator ≡ d.simulator) × (t.queue ≡ d.queue) × (t.budget ≡ d.budget) × (t.chats ≡ d.chats)

queue_item-lem :
    (now : ℕ) (r : Handled) (d : Daemon)
    → ((queue_item now r d).0.simulator ≡ d.simulator)
      × ((queue_item now r d).0.queue ≡ d.queue ++ queued r)
      × ((queue_item now r d).0.budget ≡ budget_after now r d.budget)
      × ((queue_item now r d).1 ≡ exception_of r)
unfolding queue_item budget_after
queue_item-lem now (ok (some item)) d = (refl, refl, refl, refl)
queue_item-lem now (ok none) d = (refl, sym (append-nil d.queue), refl, refl)
queue_item-lem now (raise x) d = (refl, sym (append-nil d.queue), refl, refl)

module _ (outside : Subscriptions.Outside) where
  apply_payload-Frame : (v : Value) (d : Daemon) → Frame d (apply_payload outside v d)
  unfolding apply_payload
  apply_payload-Frame (obj fs) d = (refl, refl, refl, refl)
  apply_payload-Frame _ d = (refl, refl, refl, refl)

  apply_synthetic-Frame :
      (fs : Fields) (n : Option ℤ) (d : Daemon) → Frame d (apply_synthetic outside fs n d)
  unfolding apply_synthetic
  apply_synthetic-Frame fs (some (pos n)) d =
      ground (arith, apply_payload-Frame (field_or_null fs "subscription") d)
  apply_synthetic-Frame fs (some (negsuc n)) d = (refl, refl, refl, refl)
  apply_synthetic-Frame fs none d = (refl, refl, refl, refl)

  apply_notification-Frame : (v : Value) (d : Daemon) → Frame d (apply_notification outside v d)
  unfolding apply_notification apply_synthetic
  apply_notification-Frame (obj fs) d =
      apply_synthetic-Frame fs (int_of (field_or_null fs "type")) d
  apply_notification-Frame _ d = (refl, refl, refl, refl)

  apply_subscriptions-Frame :
      (service_id event_type : ℕ) (inner : Fields) (d : Daemon)
      → Frame d (apply_subscriptions outside service_id event_type inner d)
  unfolding apply_subscriptions
  apply_subscriptions-Frame service_id event_type inner d = ground (
    arith,
    apply_notification-Frame (field_or_null inner "notification") d,
    apply_payload-Frame (field_or_null inner "subscription") d,
  )

  -- An event that wakes the hidden simulator makes it active from then on, has a handler in the
  -- dispatch table, and whatever item that handler returns is put at the end of the queue, with the
  -- error budget reset; the subscriptions that the event carries change none of these, and the only
  -- exception that leaves is that of the handler.
  pub on_event-wakes :
      (tick now service_id event_type : ℕ) (inner : Fields) (d : Daemon)
      → is_hidden d.simulator.state ≡ true
      → is_interrupt service_id event_type ≡ true
      → let (t, failure) = on_event outside tick now service_id event_type inner d in
        (handler : Handler) × (get dispatch_table (service_id, event_type) ≡ some handler)
        × (t.simulator ≡ record d.simulator { state = active; state_entered_at = tick })
        × (t.queue ≡ d.queue ++ queued (handler inner))
        × (t.budget ≡ budget_after now (handler inner) d.budget)
        × (failure ≡ exception_of (handler inner))
  unfolding on_event on_ws_event_during_hidden is_interrupt
  on_event-wakes tick now service_id event_type inner d asleep interrupt =
      let other =
        any-all is_other interrupt_events (service_id, event_type) interrupts_other interrupt in
      let (handler, found, known, routed) =
        interrupt_dispatched service_id event_type inner interrupt in
      let woken : Daemon = record d {
        simulator = record d.simulator { state = active; state_entered_at = tick };
      } in
      let framed = apply_subscriptions-Frame service_id event_type inner woken in
      let result =
        queue_item-lem now (handler inner)
          (apply_subscriptions outside service_id event_type inner woken) in
      let woke : on_event outside tick now service_id event_type inner d
          ≡ queue_item now (handler inner)
              (apply_subscriptions outside service_id event_type inner woken) =
        ground (arith, asleep, interrupt, other, routed) in
      (
        handler,
        found,
        rw woke (ground (arith, result, framed)),
        rw woke (ground (arith, result, framed)),
        rw woke (ground (arith, result, framed)),
        rw woke result.3,
      )
