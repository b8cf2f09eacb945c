-- ===== src/Daemon/Simulator/Tests.antt =====
-- Runs of the activity simulator, and its theorems at concrete inputs.
use fansly_scraper.Common.{◌+◌, ◌*◌, ◌≤◌, ◌≡◌, refl, true, List, [], ◌∷◌, arith}
use fansly_scraper.Daemon.Simulator.{
  active, idle, hidden, second, Settings, Simulator, new, is_interrupt, on_ws_event_during_hidden,
  tick,
}
use fansly_scraper.Daemon.Simulator.Traces.{
  Call, ticked, ws_event, run, least_delay, run_dwell, AreQuiet, run_quiet, run_full_cycle,
}

-- the defaults of `__init__`, with phases of one, two and five minutes
abbrev settings : Settings
settings = record {
  active_min = 1;
  idle_min = 2;
  hidden_min = 5;
  timeline_poll_active_seconds = 180;
  timeline_poll_idle_seconds = 600;
  story_poll_active_seconds = 30;
  story_poll_idle_seconds = 300;
}

abbrev start : Simulator
start = record {
  active_duration = 60 * second;
  idle_duration = 120 * second;
  hidden_duration = 300 * second;
  timeline_poll_active = 180 * second;
  timeline_poll_idle = 600 * second;
  story_poll_active = 30 * second;
  story_poll_idle = 300 * second;
  state = active;
  state_entered_at = 0;
}

new_is_start : new settings 0 ≡ start
unfolding new
new_is_start = refl

abbrev asleep : Simulator
asleep = record start { state = hidden; state_entered_at = 7 * second }

woken_by_message :
    on_ws_event_during_hidden 5 1 (9 * second) asleep
    ≡ (record start { state_entered_at = 9 * second }, true)
unfolding on_ws_event_during_hidden is_interrupt
woken_by_message = refl

abbrev to_hidden : List Call
to_hidden =
    ticked (61 * second) (61 * second)
    ∷ ws_event 5 1 (70 * second)
    ∷ ticked (200 * second) (200 * second)
    ∷ []

reaches_hidden : (run start to_hidden).state ≡ hidden
unfolding run tick on_ws_event_during_hidden is_interrupt
reaches_hidden = refl

run_dwell_example :
    start.state_entered_at + least_delay start (run start to_hidden).state
    ≤ (run start to_hidden).state_entered_at
run_dwell_example = run_dwell start to_hidden refl (omega arith)

abbrev quiet : List Call
quiet = ticked (100 * second) (100 * second) ∷ ws_event 1 2 (110 * second) ∷ []

quiet_events : AreQuiet asleep quiet
unfolding is_interrupt
quiet_events = (omega arith, (refl, tt))

run_quiet_example : run asleep quiet ≡ asleep
run_quiet_example = run_quiet asleep quiet refl quiet_events

run_full_cycle_example :
    (run start (ticked (61 * second) (61 * second) ∷ [])).state ≡ idle
    × ((run start
          (ticked (61 * second) (61 * second) ∷ ticked (200 * second) (200 * second) ∷ [])).state
        ≡ hidden)
    × (run start (
          ticked (61 * second) (61 * second)
          ∷ ticked (200 * second) (200 * second)
          ∷ ticked (501 * second) (502 * second)
          ∷ [])
        ≡ record start { state_entered_at = 502 * second })
run_full_cycle_example =
    run_full_cycle start (61 * second) (61 * second) (200 * second) (200 * second) (501 * second)
      (502 * second) refl (omega arith) (omega arith) (omega arith)
