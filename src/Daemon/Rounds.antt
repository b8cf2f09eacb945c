-- ===== src/Daemon/Rounds.antt =====
-- daemon/runner.py: a pass of each poll loop after its wait, from the answer of the poll to the work
-- items in the queue. The loops around the passes, their waits and the dashboard are left out.
pub mod Candidates
mod Tests
use fansly_scraper.Common.{
  ℕ, Bool, true, false, ◌||◌, ◌&&◌, not, Option, none, some, is_some, List, [], ◌∷◌, ◌++◌, map,
  if◌then◌else◌,
}
use fansly_scraper.Common.Classes.{int_keyed}
use fansly_scraper.Common.Dict.{Dict, get}
use fansly_scraper.Common.Int.{ℤ}
use fansly_scraper.Common.Sets.{member, add}
use fansly_scraper.Daemon.Filters.{Loaded, Response, should_process_creator}
use fansly_scraper.Daemon.Handlers.{WorkItem, download_timeline_only, download_stories_only}
use fansly_scraper.Daemon.Polling.{Seen, or_empty}
use fansly_scraper.Daemon.Runner.{
  Failure, unrecoverable, ErrorBudget, on_success, on_error, Config, Outside, Scope, in_scope,
  out_of_scope, unknown,
}
use fansly_scraper.Daemon.Runner.Items.{creator_scope}
use fansly_scraper.Daemon.Runner.Worker.{is_unrecoverable}
use fansly_scraper.Daemon.Simulator.{Simulator, on_new_content}
use fansly_scraper.Helpers.Json.{Value, obj, Fields}
use fansly_scraper.Helpers.Result.{Result, ok, raise}
use fansly_scraper.Helpers.Timestamp.{Datetime}

-- what the polls share: the queue, the error budget, and the creators that are past their first check
pub record Round : Type 0 where
  pub queue : List WorkItem
  pub budget : ErrorBudget
  pub consumed : List ℤ
  pub queued_any : Bool

pub record Polls : Type 0 where
  pub simulator : Simulator
  pub refresh : Bool
  pub round : Round

-- an answer of a poll, or the exception that it raises
pub data PollResult (T : Type 0) : Type 0 where
  poll_failed : Failure → PollResult T
  polled : T → PollResult T

-- an exception counts as new content
abbrev pub answered : Result Bool → Bool
answered (ok b) = b
answered (raise x) = true

abbrev pub enqueue : ℕ → WorkItem → Round → Round
unfolding on_success
enqueue now item r = record r {
  queue = r.queue ++ item ∷ [];
  budget = on_success now r.budget;
  queued_any = true;
}

-- the exception that leaves after a failed poll
abbrev pub after_failure : ℕ → Failure → ErrorBudget → Option Failure
unfolding on_error
after_failure now e b = if is_unrecoverable e || on_error now e b then some unrecoverable else none

abbrev pub succeed : ℕ → Polls → Polls
unfolding on_success
succeed now p = record p {
  round = record p.round { budget = on_success now p.round.budget; queued_any = false };
}

-- `on_new_content`, and the refresh of the following list that a transition asks for
abbrev pub wake : ℕ → Polls → Polls
unfolding on_new_content
wake tick p =
    let (s, transitioned) = on_new_content tick p.simulator in
    record p { simulator = s; refresh = p.refresh || transitioned }

-- what is done for a creator in scope, and the exception of the lookup
abbrev pub behind_scope : Scope → Round → Round → Round × Option Failure
behind_scope in_scope t r = (t, none)
behind_scope out_of_scope t r = (r, none)
behind_scope (unknown e) t r = (r, some e)

module _ (dt : Datetime) (outside : Outside) (config : Config) where
  open dt use {Instant}

  module _ (fetch : ℤ → ℕ → Value → Response) (loaded : ℤ → Loaded Instant)
      (session : Option Instant) where
    -- `should_process_creator` on the posts that the poll brought
    unfoldable pub should : ℤ → List Fields → Option Instant → Bool
    should creator_id posts baseline =
        answered
          (should_process_creator dt (fetch creator_id) baseline (loaded creator_id)
            (some (map obj posts))).answer

    -- the session's baseline, at the first check of a creator
    unfoldable pub baseline_for : List ℤ → ℤ → Option Instant
    baseline_for consumed creator_id = if member creator_id consumed then none else session

    abbrev pub evaluate : ℕ → ℤ → List Fields → Round → Round
    evaluate now creator_id posts r =
        let t : Round = record r { consumed = add creator_id r.consumed } in
        if should creator_id posts (baseline_for r.consumed creator_id)
        then enqueue now (download_timeline_only creator_id) t
        else t

    -- `_process_timeline_candidate`, and the exception of its lookup
    unfoldable pub process_timeline_candidate : ℕ → ℤ → List Fields → Round → Round × Option Failure
    process_timeline_candidate now creator_id posts r =
        behind_scope (creator_scope outside config creator_id) (evaluate now creator_id posts r) r

    unfoldable pub timeline_round :
        ℕ → Dict ℤ (List Fields) → List ℤ → Round → Round × Option Failure
    timeline_round now posts [] r = (r, none)
    timeline_round now posts (c ∷ cs) r =
        let (t, failure) = process_timeline_candidate now c (or_empty (get posts c)) r in
        let rest = timeline_round now posts cs t in if is_some failure then (t, failure) else rest

    -- a pass of `_timeline_poll_loop`
    unfoldable pub timeline_pass : ℕ → ℕ → PollResult Seen → Polls → Polls × Option Failure
    unfolding timeline_round after_failure succeed wake
    timeline_pass now tick (poll_failed e) p = (p, after_failure now e p.round.budget)
    timeline_pass now tick (polled seen) p =
        let q = succeed now p in
        let (r, failure) = timeline_round now seen.by_creator seen.new_creators q.round in
        let t : Polls = record q { round = r } in
        (if r.queued_any && not (is_some failure) then wake tick t else t, failure)

  unfoldable pub story_round : List ℤ → Round → Round × Option Failure
  unfolding creator_scope
  story_round [] r = (r, none)
  story_round (c ∷ cs) r =
      let asked : Round = record r { queue = r.queue ++ download_stories_only c ∷ [] } in
      let (t, failure) = behind_scope (creator_scope outside config c) asked r in
      let rest = story_round cs t in if is_some failure then (t, failure) else rest

  abbrev pub story_items : ℕ → List ℤ → Polls → Polls × Option Failure
  unfolding story_round wake
  story_items tick [] p = (p, none)
  story_items tick (c ∷ cs) p =
      let woken = wake tick p in
      let (r, failure) = story_round (c ∷ cs) woken.round in (record woken { round = r }, failure)

  -- a pass of `_story_poll_loop`
  unfoldable pub story_pass : ℕ → ℕ → PollResult (List ℤ) → Polls → Polls × Option Failure
  unfolding story_items after_failure succeed
  story_pass now tick (poll_failed e) p = (p, after_failure now e p.round.budget)
  story_pass now tick (polled ids) p = story_items tick ids (succeed now p)
