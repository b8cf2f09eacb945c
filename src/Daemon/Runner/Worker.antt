-- ===== src/Daemon/Runner/Worker.antt =====
-- daemon/runner.py: the worker that handles the items of the queue in order.
use fansly_scraper.Common.{
  ℕ, ◌+◌, Bool, true, false, ◌||◌, Option, none, some, List, [], ◌∷◌, if◌then◌else◌,
}
use fansly_scraper.Common.Classes.{codes_keyed, int_keyed}
use fansly_scraper.Common.Dict.{Dict}
use fansly_scraper.Common.Int.{ℤ}
use fansly_scraper.Daemon.Handlers.{
  WorkItem, download_messages_for_group, full_creator_download, redownload_creator_media,
  check_creator_access, download_stories_only, download_timeline_only, mark_messages_deleted,
}
use fansly_scraper.Daemon.Runner.{
  Failure, unrecoverable, http_status, soft, ErrorBudget, on_success, on_error, Config, Pending,
  Outside, Run,
}
use fansly_scraper.Daemon.Runner.Items.{handle_work_item}

-- what the worker keeps: the budget, the registry, the creators that were marked as processed, the
-- refreshes of the following list, and the runs of the items; the last first
pub record Worker : Type 0 where
  pub budget : ErrorBudget
  pub access_changed : Dict ℤ Pending
  pub processed : List ℤ
  pub refreshes : ℕ
  pub runs : List Run

-- the creator that is marked as processed after an item
abbrev pub marked_creator : WorkItem → Option ℤ
marked_creator (full_creator_download creator_id) = some creator_id
marked_creator (download_timeline_only creator_id) = some creator_id
marked_creator (redownload_creator_media creator_id media_id bundle_id) = some creator_id
marked_creator (check_creator_access creator_id) = some creator_id
marked_creator (download_stories_only creator_id) = some creator_id
marked_creator (download_messages_for_group group_id sender_id) = none
marked_creator (mark_messages_deleted ids deleted_at) = none

abbrev pub refreshes_for : Bool → WorkItem → ℕ
refreshes_for true (full_creator_download creator_id) = 1
refreshes_for _ item = 0

abbrev pub push_creator : Option ℤ → List ℤ → List ℤ
push_creator none processed = processed
push_creator (some creator_id) processed = creator_id ∷ processed

abbrev pub is_unrecoverable : Failure → Bool
is_unrecoverable unrecoverable = true
is_unrecoverable (http_status status) = false
is_unrecoverable soft = false

-- the worker after the run of an item, and whether DaemonUnrecoverableError leaves it
unfoldable pub after_run : Bool → ℕ → WorkItem → Run → Worker → Worker × Bool
unfolding on_success on_error
after_run use_following now item run w =
    let t : Worker = record w { access_changed = run.access_changed; runs = run ∷ w.runs } in
    elim run.failure [
      | none ↦ (
        record t {
          budget = on_success now w.budget;
          processed = push_creator (marked_creator item) w.processed;
          refreshes = w.refreshes + refreshes_for use_following item;
        },
        false,
      )
      | some e ↦ (t, is_unrecoverable e || on_error now e w.budget)
    ]

module _ (outside : ℕ → Outside) where
  -- `_worker_loop` over the items of the queue, the n-th in its own surroundings and at its own time:
  -- the items that were not handled, if an exception ended it
  unfoldable pub worker_loop :
      (ℕ → ℕ) → Config → ℕ → List WorkItem → Worker → Worker × List WorkItem
  unfolding handle_work_item after_run
  worker_loop clock config n [] w = (w, [])
  worker_loop clock config n (item ∷ items) w =
      let (t, stopped) =
        after_run config.use_following (clock n) item
          (handle_work_item (outside n) config w.access_changed item) w in
      let rest = worker_loop clock config (n + 1) items t in if stopped then (t, items) else rest
