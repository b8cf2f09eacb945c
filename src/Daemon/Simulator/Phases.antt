-- ===== src/Daemon/Simulator/Phases.antt =====
-- The ladder of tests in `tick` against a table of phases, and the poll intervals.
use fansly_scraper.Common.{ℕ, ◌+◌, ◌-◌, ◌*◌, ◌≤◌, ◌<◌, ◌≡◌, none, some, arith, ltb, if◌then◌else◌}
use fansly_scraper.Daemon.Simulator.{
  Phase, active, idle, hidden, Signal, went_idle, went_hidden, unhide, second, Simulator,
  timeline_interval, story_interval, should_poll, tick,
}

-- the cycle of phases
abbrev pub next_phase : Phase → Phase
next_phase active = idle
next_phase idle = hidden
next_phase hidden = active

abbrev pub signal_of : Phase → Signal
signal_of active = went_idle
signal_of idle = went_hidden
signal_of hidden = unhide

abbrev pub duration_of : Simulator → Phase → ℕ
duration_of s active = s.active_duration
duration_of s idle = s.idle_duration
duration_of s hidden = s.hidden_duration

-- In every phase, `tick` moves to the next phase of the cycle and reports it exactly when the
-- time since the phase was entered exceeds the duration of that phase; the new phase starts at
-- the second reading of the clock. Otherwise it changes nothing and reports nothing.
pub tick-cycle :
    (now entered : ℕ) (s : Simulator)
    → tick now entered s ≡ (
        if ltb (duration_of s s.state) (now - s.state_entered_at)
        then (
          record s { state = next_phase s.state; state_entered_at = entered },
          some (signal_of s.state),
        )
        else (s, none))
unfolding tick
tick-cycle now entered s = ground arith

-- The configured poll bases of a phase; none while hidden.
abbrev pub timeline_base : Simulator → Phase → ℕ
timeline_base s active = s.timeline_poll_active
timeline_base s idle = s.timeline_poll_idle
timeline_base s hidden = 0

abbrev pub story_base : Simulator → Phase → ℕ
story_base s active = s.story_poll_active
story_base s idle = s.story_poll_idle
story_base s hidden = 0

-- If the configured bases are positive and the jitter stays in the range it is asked for, both
-- poll intervals are positive exactly when `should_poll` holds, and they lie between the base of
-- the phase and that base plus ten (timeline) or two (stories) seconds; both are 0 while hidden.
pub interval_bounds :
    (jitter : ℕ → ℕ → ℕ) (s : Simulator)
    → jitter 0 (10 * second) ≤ 10 * second
    → jitter 0 (2 * second) ≤ 2 * second
    → (0 < s.timeline_poll_active) × (0 < s.timeline_poll_idle)
    → (0 < s.story_poll_active) × (0 < s.story_poll_idle)
    → (should_poll s ≡ ltb 0 (timeline_interval jitter s))
      × (should_poll s ≡ ltb 0 (story_interval jitter s))
      × (timeline_base s s.state ≤ timeline_interval jitter s)
      × (timeline_interval jitter s
          ≤ timeline_base s s.state + (if should_poll s then 10 * second else 0))
      × (story_base s s.state ≤ story_interval jitter s)
      × (story_interval jitter s ≤ story_base s s.state + (if should_poll s then 2 * second else 0))
unfolding timeline_interval story_interval should_poll
interval_bounds jitter s j10 j2 t st = ground arith
