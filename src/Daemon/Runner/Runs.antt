-- ===== src/Daemon/Runner/Runs.antt =====
-- What it means that a worker has run the items of a queue: which runs, and where it stops.
use fansly_scraper.Common.{
  ℕ, ◌+◌, Bool, true, false, ◌||◌, ltb, Option, none, some, is_some, List, [], ◌∷◌, ◌++◌,
  if◌then◌else◌, ◌≡◌, arith, inl, inr, Option-cases,
}
use fansly_scraper.Common.Classes.{codes_keyed, int_keyed}
use fansly_scraper.Common.Dict.{Dict}
use fansly_scraper.Common.Int.{ℤ}
use fansly_scraper.Daemon.Handlers.{WorkItem}
use fansly_scraper.Daemon.Runner.{
  Failure, is_hard_fatal, on_success, on_error, Config, Pending, Outside, Run,
}
use fansly_scraper.Daemon.Runner.Items.{handle_work_item}
use fansly_scraper.Daemon.Runner.Worker.{
  Worker, marked_creator, push_creator, is_unrecoverable, after_run,
}

-- the creators that are marked for runs that ended without an exception
unfoldable pub credit : List (WorkItem × Run) → List ℤ → List ℤ
credit [] processed = processed
credit ((item, run) ∷ rest) processed =
    credit rest
      (if is_some run.failure then processed else push_creator (marked_creator item) processed)

unfoldable pub push_runs : List (WorkItem × Run) → List Run → List Run
push_runs [] runs = runs
push_runs ((item, run) ∷ rest) runs = push_runs rest (run ∷ runs)

unfoldable pub items_of : List (WorkItem × Run) → List WorkItem
items_of [] = []
items_of ((item, run) ∷ rest) = item ∷ items_of rest

-- the time of the last success after a run at a time
abbrev pub success_after : ℕ → ℕ → Run → ℕ
success_after now since run = if is_some run.failure then since else now

-- An error is fatal by itself, or comes later after the last success than the timeout.
abbrev pub is_fatal : ℕ → ℕ → ℕ → Option Failure → Bool
is_fatal timeout now since none = false
is_fatal timeout now since (some e) =
    is_unrecoverable e || is_hard_fatal e || ltb (since + timeout) now

module _ (outside : ℕ → Outside) (clock : ℕ → ℕ) (config : Config) (timeout : ℕ) where
  -- The runs of a queue from the n-th on, the last success and the registry at its start, and the time
  -- of the last success at its end: each item is run in the registry that the run before left, until
  -- the queue is empty or a run is fatal, and only then.
  pub data Runs
      : ℕ
        → ℕ
        → Dict ℤ Pending
        → List WorkItem
        → List (WorkItem × Run)
        → List WorkItem
        → ℕ
        → Type 0 where
    emptied : {n since : ℕ} {registry : Dict ℤ Pending} → Runs n since registry [] [] [] since
    gave_up :
        {n since : ℕ} {registry : Dict ℤ Pending} {item : WorkItem} {left : List WorkItem}
        → is_fatal timeout
            (clock n)
            since
            (handle_work_item (outside n) config registry item).failure
          ≡ true
        → Runs n since registry
            (item ∷ left)
            ((item, handle_work_item (outside n) config registry item) ∷ [])
            left
            since
    went_on :
        {n since : ℕ} {registry : Dict ℤ Pending} {item : WorkItem} {items left : List WorkItem}
        {handled : List (WorkItem × Run)} {last : ℕ}
        → is_fatal timeout
            (clock n)
            since
            (handle_work_item (outside n) config registry item).failure
          ≡ false
        → Runs
            (n + 1)
            (success_after (clock n) since (handle_work_item (outside n) config registry item))
            (handle_work_item (outside n) config registry item).access_changed
            items
            handled
            left
            last
        → Runs n since registry
            (item ∷ items)
            ((item, handle_work_item (outside n) config registry item) ∷ handled)
            left
            last

module _ (outside : ℕ → Outside) where
  -- What a worker has done when it ends.
  pub record IsDrained (clock : ℕ → ℕ) (config : Config) (n : ℕ) (items left : List WorkItem)
      (w t : Worker) : Type 0 where
    pub handled : List (WorkItem × Run)
    pub in_order : items ≡ items_of handled ++ left
    pub ran :
        Runs outside clock config w.budget.timeout_seconds n w.budget.last_success_at
          w.access_changed items handled left t.budget.last_success_at
    pub kept_runs : t.runs ≡ push_runs handled w.runs
    pub credited : t.processed ≡ credit handled w.processed

pub after_run-lem :
    (use_following : Bool) (now : ℕ) (item : WorkItem) (run : Run) (w : Worker)
    → let (t, stopped) = after_run use_following now item run w in
      (t.processed ≡ (
        if is_some run.failure
        then w.processed
        else push_creator (marked_creator item) w.processed))
      × (t.runs ≡ run ∷ w.runs)
      × (t.access_changed ≡ run.access_changed)
      × (t.budget.timeout_seconds ≡ w.budget.timeout_seconds)
      × (t.budget.last_success_at ≡ success_after now w.budget.last_success_at run)
      × (stopped ≡ is_fatal w.budget.timeout_seconds now w.budget.last_success_at run.failure)
unfolding after_run on_error on_success
after_run-lem use_following now item run w = elim (Option-cases run.failure) [
  | inl fine ↦ ground (arith, fine)
  | inr (e, failed) ↦ ground (arith, failed)
]

pub fatal-since :
    (timeout now since : ℕ) (run : Run)
    → is_fatal timeout now since run.failure ≡ true
    → since ≡ success_after now since run
fatal-since timeout now since run h = elim (Option-cases run.failure) [
  | inl fine ↦ ground (arith, h, fine)
  | inr (e, failed) ↦ ground (arith, failed)
]
