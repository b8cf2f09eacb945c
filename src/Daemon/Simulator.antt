-- ===== src/Daemon/Simulator.antt =====
-- daemon/simulator.py: the three-phase activity simulator. Times are whole clock ticks, `second` of
-- them to a second; each reading of the clock, and the jitter, is an argument.
pub mod Phases
pub mod Traces
mod Tests
use fansly_scraper.Common.{
  ℕ, ◌+◌, ◌-◌, ◌*◌, Bool, true, false, ◌&&◌, Option, none, some, List, [], ◌∷◌, ltb, any, nat_beq,
  if◌then◌else◌,
}

pub data Phase : Type 0 where
  active idle hidden : Phase

-- what `tick` returns beside `None`: "idle", "hidden" and the sentinel "unhide"
pub data Signal : Type 0 where
  went_idle went_hidden unhide : Signal

abbrev pub second : ℕ
second = 1000000

pub record Settings : Type 0 where
  pub active_min : ℕ
  pub idle_min : ℕ
  pub hidden_min : ℕ
  pub timeline_poll_active_seconds : ℕ
  pub timeline_poll_idle_seconds : ℕ
  pub story_poll_active_seconds : ℕ
  pub story_poll_idle_seconds : ℕ

pub record Simulator : Type 0 where
  pub active_duration : ℕ
  pub idle_duration : ℕ
  pub hidden_duration : ℕ
  pub timeline_poll_active : ℕ
  pub timeline_poll_idle : ℕ
  pub story_poll_active : ℕ
  pub story_poll_idle : ℕ
  pub state : Phase
  pub state_entered_at : ℕ

-- `__init__`
unfoldable pub new : Settings → ℕ → Simulator
new c now = record {
  active_duration = c.active_min * 60 * second;
  idle_duration = c.idle_min * 60 * second;
  hidden_duration = c.hidden_min * 60 * second;
  timeline_poll_active = c.timeline_poll_active_seconds * second;
  timeline_poll_idle = c.timeline_poll_idle_seconds * second;
  story_poll_active = c.story_poll_active_seconds * second;
  story_poll_idle = c.story_poll_idle_seconds * second;
  state = active;
  state_entered_at = now;
}

abbrev pub is_active : Phase → Bool
is_active active = true
is_active _ = false

abbrev pub is_idle : Phase → Bool
is_idle idle = true
is_idle _ = false

abbrev pub is_hidden : Phase → Bool
is_hidden hidden = true
is_hidden _ = false

unfoldable pub timeline_interval : (ℕ → ℕ → ℕ) → Simulator → ℕ
timeline_interval jitter s =
    if is_active s.state
    then s.timeline_poll_active + jitter 0 (10 * second)
    else if is_idle s.state
    then s.timeline_poll_idle + jitter 0 (10 * second)
    else 0

unfoldable pub story_interval : (ℕ → ℕ → ℕ) → Simulator → ℕ
story_interval jitter s =
    if is_active s.state
    then s.story_poll_active + jitter 0 (2 * second)
    else if is_idle s.state
    then s.story_poll_idle + jitter 0 (2 * second)
    else 0

unfoldable pub should_poll : Simulator → Bool
should_poll s = if is_hidden s.state then false else true

unfoldable pub on_new_content : ℕ → Simulator → Simulator × Bool
on_new_content now s =
    let was_non_active = if is_active s.state then false else true in
    (record s { state = active; state_entered_at = now }, was_non_active)

-- pairs (service id, event type)
abbrev pub interrupt_events : List (ℕ × ℕ)
interrupt_events = (5, 1) ∷ (15, 5) ∷ (2, 7) ∷ (2, 8) ∷ []

abbrev pub same_event : ℕ × ℕ → ℕ × ℕ → Bool
same_event (a, b) (c, d) = nat_beq a c && nat_beq b d

unfoldable pub is_interrupt : ℕ → ℕ → Bool
is_interrupt service_id event_type = any (same_event (service_id, event_type)) interrupt_events

unfoldable pub on_ws_event_during_hidden : ℕ → ℕ → ℕ → Simulator → Simulator × Bool
on_ws_event_during_hidden service_id event_type now s =
    if is_hidden s.state && is_interrupt service_id event_type
    then (record s { state = active; state_entered_at = now }, true)
    else (s, false)

-- The clock is read twice: for the elapsed time, and for the start of the new phase. `elapsed`
-- is compared with durations that are not negative, so the truncated `-` gives the same tests.
unfoldable pub tick : ℕ → ℕ → Simulator → Simulator × Option Signal
tick now entered s =
    let elapsed = now - s.state_entered_at in
    if is_active s.state && ltb s.active_duration elapsed
    then (record s { state = idle; state_entered_at = entered }, some went_idle)
    else if is_idle s.state && ltb s.idle_duration elapsed
    then (record s { state = hidden; state_entered_at = entered }, some went_hidden)
    else if is_hidden s.state && ltb s.hidden_duration elapsed
    then (record s { state = active; state_entered_at = entered }, some unhide)
    else (s, none)
