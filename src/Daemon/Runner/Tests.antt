-- ===== src/Daemon/Runner/Tests.antt =====
-- Runs of the worker, and the conditions of its theorems at concrete inputs.
use fansly_scraper.Common.{
  ℕ, ◌+◌, true, false, Option, none, some, List, [], ◌∷◌, ◌≡◌, refl, arith, if◌then◌else◌,
}
use fansly_scraper.Common.Classes.{codes_keyed, int_keyed}
use fansly_scraper.Common.Int.{ℤ, pos, int_beq}
use fansly_scraper.Common.Sets.{member}
use fansly_scraper.Daemon.Handlers.{
  WorkItem, download_stories_only, download_timeline_only, mark_messages_deleted,
}
use fansly_scraper.Helpers.Text.{codes}
use fansly_scraper.Daemon.Runner.{
  Failure, soft, Config, Lookup, absent, named, Call, account_info, timeline, stories, messages,
  messages_for_group, wall, fetch_media, download_media, incremental_stash, Outside, idle_run,
}
use fansly_scraper.Daemon.Runner.Items.{creator_scope, handle_work_item}
use fansly_scraper.Daemon.Runner.Worker.{Worker, after_run, worker_loop}
use fansly_scraper.Daemon.Runner.Runs.{IsDrained}
use fansly_scraper.Daemon.Runner.Soft.{is_soft, IsSoft}
use fansly_scraper.Daemon.Runner.Drained.{
  out_of_scope-idle, skipped_item-processed, worker_loop-IsDrained, worker_loop-drains,
}

abbrev config : Config
config = record { use_following = false; user_names = codes "Bob" ∷ []; stash_active = true }

-- account 1 is bob, account 2 alice
abbrev account : ℤ → Lookup
account n =
    if int_beq n (pos 1)
    then named (codes "bob")
    else if int_beq n (pos 2)
    then named (codes "alice")
    else absent

abbrev stories_fail : Call → Option Failure
stories_fail (stories mark_viewed) = some soft
stories_fail _ = none

abbrev outside : Outside
outside = record {
  cached_name = λ n. none;
  stored = account;
  walls = [];
  bundle_media = λ n. none;
  accessible = λ ids. ids;
  raises = stories_fail;
  leaves = λ calls registry. registry;
  group_name = λ group name. name;
  message = λ n. some true;
  save_raises = λ n. none;
  now = pos 50;
  is_epoch = λ n. true;
}

abbrev idle_worker : Worker
idle_worker = record {
  budget = record { timeout_seconds = 600; last_success_at = 100 };
  access_changed = [];
  processed = [];
  refreshes = 0;
  runs = [];
}

abbrev queue : List WorkItem
queue =
    download_timeline_only (pos 1)
    ∷ download_stories_only (pos 1)
    ∷ download_timeline_only (pos 2)
    ∷ mark_messages_deleted (pos 5 ∷ []) none
    ∷ []

abbrev done : Worker
done = (worker_loop (λ n. outside) (λ n. 100 + n) config 0 queue idle_worker).0

both_processed : done.processed ≡ pos 2 ∷ pos 1 ∷ []
unfolding worker_loop member
both_processed = refl

out_of_scope-idle_example :
    handle_work_item outside config [] (download_timeline_only (pos 2)) ≡ idle_run []
unfolding creator_scope member
out_of_scope-idle_example =
    out_of_scope-idle outside config [] (download_timeline_only (pos 2)) (pos 2) refl refl

skipped_item-processed_example :
    let (t, stopped) =
      after_run false 105
        (download_timeline_only (pos 2))
        (handle_work_item outside config [] (download_timeline_only (pos 2)))
        idle_worker in
    (t.processed ≡ pos 2 ∷ []) × (t.budget.last_success_at ≡ 105) × (stopped ≡ false)
unfolding creator_scope member
skipped_item-processed_example =
    skipped_item-processed outside config 105 (download_timeline_only (pos 2)) (pos 2) idle_worker
      refl refl refl

worker_loop-IsDrained_example :
    IsDrained
      (λ n. outside)
      (λ n. 100 + n)
      config
      0
      queue
      (worker_loop (λ n. outside) (λ n. 100 + n) config 0 queue idle_worker).1
      idle_worker
      (worker_loop (λ n. outside) (λ n. 100 + n) config 0 queue idle_worker).0
worker_loop-IsDrained_example =
    worker_loop-IsDrained (λ n. outside) (λ n. 100 + n) config 0 queue idle_worker

stories_fail-soft : (c : Call) → is_soft (stories_fail c) ≡ true
stories_fail-soft (stories mark_viewed) = refl
stories_fail-soft account_info = refl
stories_fail-soft timeline = refl
stories_fail-soft messages = refl
stories_fail-soft (messages_for_group n) = refl
stories_fail-soft (wall n) = refl
stories_fail-soft (fetch_media ids) = refl
stories_fail-soft (download_media ids) = refl
stories_fail-soft incremental_stash = refl

outside-IsSoft : ℕ → IsSoft outside
outside-IsSoft n = record { soft_calls = stories_fail-soft; soft_saves = λ id. refl }

worker_loop-drains_example :
    (worker_loop (λ n. outside) (λ n. 100) config 0 queue idle_worker).1 ≡ []
worker_loop-drains_example =
    worker_loop-drains (λ n. outside) (λ n. 100) config 100 0 queue idle_worker outside-IsSoft
      (λ m. (omega arith, omega arith)) (omega arith)
