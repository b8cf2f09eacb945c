-- ===== src/Daemon/Events/Tests.antt =====
-- A run of the handler of service events, and the conditions of its theorem at a concrete input.
use fansly_scraper.Common.{◌*◌, ◌++◌, true, none, some, [], ◌∷◌, ◌≡◌, refl}
use fansly_scraper.Common.Dict.{get}
use fansly_scraper.Common.Int.{pos}
use fansly_scraper.Daemon.Handlers.{
  download_timeline_only, full_creator_download, Handler, dispatch_table, handle_subscription_event,
}
use fansly_scraper.Daemon.Handlers.Tables.{event_keyed, mem}
use fansly_scraper.Daemon.Events.{Daemon, on_event}
use fansly_scraper.Daemon.Events.Wakes.{queued, exception_of, budget_after, on_event-wakes}
use fansly_scraper.Daemon.Simulator.{active, hidden, second, is_interrupt}
use fansly_scraper.Helpers.Json.{obj, int, Fields, field, end, equals_int, safe_int}
use fansly_scraper.Helpers.Result.{ok}
use fansly_scraper.Metadata.Subscriptions as Subscriptions

abbrev outside : Subscriptions.Outside
outside = record {
  validate = λ fs cached. ok (record { status = some (pos 3); tier_id = none; version = none });
  validate_plan = λ fs. ok fs;
  validate_promo = λ fs. ok fs;
  saves = λ fs. true;
}

abbrev asleep : Daemon
asleep = record {
  simulator = record {
    active_duration = 60 * second;
    idle_duration = 120 * second;
    hidden_duration = 300 * second;
    timeline_poll_active = 180 * second;
    timeline_poll_idle = 600 * second;
    story_poll_active = 30 * second;
    story_poll_idle = 300 * second;
    state = hidden;
    state_entered_at = 0;
  };
  subscriptions = record { subscriptions = []; access_changed = []; plans = []; promos = [] };
  queue = download_timeline_only (pos 1) ∷ [];
  budget = record { timeout_seconds = 600; last_success_at = 0 };
  chats = [];
}

-- a confirmed subscription of account 7
abbrev confirmed : Fields
confirmed =
    field "subscription"
      (obj (
        field "id" (int (pos 90))
          (field "accountId" (int (pos 7)) (field "status" (int (pos 3)) end))))
      end

woken_queue :
    (on_event outside 40 50 15 5 confirmed asleep).0.queue
    ≡ download_timeline_only (pos 1) ∷ full_creator_download (pos 7) ∷ []
unfolding on_event mem get handle_subscription_event equals_int safe_int
woken_queue = refl

on_event-wakes_example :
    let (t, failure) = on_event outside 40 50 15 5 confirmed asleep in
    (handler : Handler) × (get dispatch_table (15, 5) ≡ some handler)
    × (t.simulator ≡ record asleep.simulator { state = active; state_entered_at = 40 })
    × (t.queue ≡ asleep.queue ++ queued (handler confirmed))
    × (t.budget ≡ budget_after 50 (handler confirmed) asleep.budget)
    × (failure ≡ exception_of (handler confirmed))
unfolding is_interrupt
on_event-wakes_example = on_event-wakes outside 40 50 15 5 confirmed asleep refl refl
