-- ===== src/Daemon/Simulator/Traces.antt =====
-- The simulator over every sequence of ticks, new content and WebSocket events.
use fansly_scraper.Common.{ℕ, ◌+◌, ◌≤◌, ◌<◌, ◌≡◌, refl, false, List, [], ◌∷◌, arith}
use fansly_scraper.Daemon.Simulator.{
  Phase, active, idle, hidden, Simulator, on_new_content, on_ws_event_during_hidden, is_interrupt,
  tick,
}

-- One call of a method, with the readings of the clock that it makes.
pub data Call : Type 0 where
  ticked : ℕ → ℕ → Call
  content : ℕ → Call
  ws_event : ℕ → ℕ → ℕ → Call

unfoldable pub step : Simulator → Call → Simulator
step s (ticked now entered) = (tick now entered s).0
step s (content now) = (on_new_content now s).0
step s (ws_event svc ty now) = (on_ws_event_during_hidden svc ty now s).0

unfoldable pub run : Simulator → List Call → Simulator
unfolding step
run s [] = s
run s (c ∷ cs) = run (step s c) cs

-- The clock never goes back: the last reading, and the readings of each call.
abbrev pub last_reading : Call → ℕ
last_reading (ticked now entered) = entered
last_reading (content now) = now
last_reading (ws_event svc ty now) = now

abbrev pub Follows : ℕ → Call → Type 0
Follows t (ticked now entered) = (t ≤ now) × (now ≤ entered)
Follows t (content now) = t ≤ now
Follows t (ws_event svc ty now) = t ≤ now

abbrev pub InOrder : ℕ → List Call → Type 0
InOrder t [] = Unit
InOrder t (c ∷ cs) = Follows t c × InOrder (last_reading c) cs

-- How late the current phase must have started, counted from `start`.
record IsPaced (start now : ℕ) (a i : ℕ) (s : Simulator) : Type 0 where
  started : start ≤ s.state_entered_at
  reached : s.state_entered_at ≤ now
  idle_late : s.state ≡ idle → start + a < s.state_entered_at
  hidden_late : s.state ≡ hidden → start + a + i < s.state_entered_at
  same_active : s.active_duration ≡ a
  same_idle : s.idle_duration ≡ i

step-IsPaced :
    (start now a i : ℕ) (s : Simulator) (c : Call)
    → IsPaced start now a i s
    → Follows now c
    → IsPaced start (last_reading c) a i (step s c)
unfolding step tick on_new_content on_ws_event_during_hidden
step-IsPaced start now a i s (ticked t u) p f = ground arith
step-IsPaced start now a i s (content t) p f = ground arith
step-IsPaced start now a i s (ws_event svc ty t) p f = ground arith

run-IsPaced :
    (start now a i : ℕ) (s : Simulator) (cs : List Call)
    → IsPaced start now a i s
    → InOrder now cs
    → (end : ℕ) × IsPaced start end a i (run s cs)
unfolding run
run-IsPaced start now a i s [] p f = (now, p)
run-IsPaced start now a i s (c ∷ cs) p f =
    run-IsPaced start (last_reading c) a i (step s c) cs (step-IsPaced start now a i s c p f.0) f.1

-- The least time, after the start of an active phase, at which a phase can be entered.
abbrev pub least_delay : Simulator → Phase → ℕ
least_delay s active = 0
least_delay s idle = s.active_duration + 1
least_delay s hidden = s.active_duration + s.idle_duration + 1

-- From an active simulator, whatever the calls, with a clock that never goes back: the phase at
-- the end was entered more than the active duration after the start if it is the idle phase, and
-- more than the active and the idle duration together after the start if it is the hidden one.
pub run_dwell :
    (s : Simulator) (cs : List Call)
    → s.state ≡ active
    → InOrder s.state_entered_at cs
    → s.state_entered_at + least_delay s (run s cs).state ≤ (run s cs).state_entered_at
run_dwell s cs act f =
    let (end, p) =
      run-IsPaced s.state_entered_at s.state_entered_at s.active_duration s.idle_duration s cs
        (ground arith) f in
    ground (arith, p)

-- A call that does not wake a hidden simulator.
abbrev pub IsQuiet : Simulator → Call → Type 0
IsQuiet s (ticked now entered) = now ≤ s.state_entered_at + s.hidden_duration
IsQuiet s (content now) = ⊥
IsQuiet s (ws_event svc ty now) = is_interrupt svc ty ≡ false

abbrev pub AreQuiet : Simulator → List Call → Type 0
AreQuiet s [] = Unit
AreQuiet s (c ∷ cs) = IsQuiet s c × AreQuiet s cs

step_quiet : (s : Simulator) (c : Call) → s.state ≡ hidden → IsQuiet s c → step s c ≡ s
unfolding step tick on_ws_event_during_hidden
step_quiet s (ticked t u) h q = ground arith
step_quiet s (content t) h q = absurd q
step_quiet s (ws_event svc ty t) h q = ground arith

-- A hidden simulator stays as it is, whatever ticks come within its hidden duration and whatever
-- WebSocket events that are no interrupts: only new content, an interrupt or the time wakes it.
pub run_quiet : (s : Simulator) (cs : List Call) → s.state ≡ hidden → AreQuiet s cs → run s cs ≡ s
unfolding run
run_quiet s [] h q = refl
run_quiet s (c ∷ cs) h q = let e = step_quiet s c h q.0 in rw e (run_quiet s cs h q.1)

-- Three ticks, each later than the duration of the phase that it ends, take an active simulator
-- through the whole cycle: it is active again, from the last reading of the clock.
pub run_full_cycle :
    (s : Simulator) (t u v w x y : ℕ)
    → s.state ≡ active
    → s.state_entered_at + s.active_duration < t
    → u + s.idle_duration < v
    → w + s.hidden_duration < x
    → (run s (ticked t u ∷ [])).state ≡ idle
      × ((run s (ticked t u ∷ ticked v w ∷ [])).state ≡ hidden)
      × (run s (ticked t u ∷ ticked v w ∷ ticked x y ∷ []) ≡ record s { state_entered_at = y })
unfolding run tick
run_full_cycle s t u v w x y act h i j = ground arith
