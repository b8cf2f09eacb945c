-- ===== src/Daemon/Runner/Drained.antt =====
-- What the worker has done when it ends, against the runs of the items.
use fansly_scraper.Common.{
  ℕ, ◌+◌, Bool, true, false, some, List, [], ◌∷◌, if◌then◌else◌, ◌≡◌, refl, ap, sym, subst, ◌∙◌,
  arith, inl, inr, Option-cases, ◌≤◌,
}
use fansly_scraper.Common.Classes.{codes_keyed, int_keyed}
use fansly_scraper.Common.Dict.{Dict}
use fansly_scraper.Common.Int.{ℤ}
use fansly_scraper.Daemon.Handlers.{WorkItem}
use fansly_scraper.Daemon.Runner.{
  on_success, on_error, Config, Pending, Outside, Run, idle_run, out_of_scope,
}
use fansly_scraper.Daemon.Runner.Items.{
  creator_scope, sender_scope, gated_creator, handle_work_item,
}
use fansly_scraper.Daemon.Runner.Soft.{is_soft, IsSoft, handle_work_item-soft}
use fansly_scraper.Daemon.Runner.Runs.{
  items_of, push_runs, credit, Runs, emptied, gave_up, went_on, IsDrained, after_run-lem,
  fatal-since,
}
use fansly_scraper.Daemon.Runner.Worker.{Worker, marked_creator, after_run, worker_loop}

module _ (outside : Outside) where
  -- A work item whose creator, or for messages whose sender, is out of scope does nothing: no call,
  -- no message and no reason of the registry is touched, and it ends without an exception.
  pub out_of_scope-idle :
      (config : Config) (registry : Dict ℤ Pending) (item : WorkItem) (creator_id : ℤ)
      → gated_creator outside item ≡ some creator_id
      → creator_scope outside config creator_id ≡ out_of_scope
      → handle_work_item outside config registry item ≡ idle_run registry
  unfolding handle_work_item sender_scope
  out_of_scope-idle config registry item creator_id gated h = ground arith

  -- The worker counts an item of one creator, skipped as out of scope, as a success: it resets the clock of
  -- the error budget and marks the creator as processed.
  pub skipped_item-processed :
      (config : Config) (now : ℕ) (item : WorkItem) (creator_id : ℤ) (w : Worker)
      → gated_creator outside item ≡ some creator_id
      → marked_creator item ≡ some creator_id
      → creator_scope outside config creator_id ≡ out_of_scope
      → let (t, stopped) =
          after_run config.use_following now item
            (handle_work_item outside config w.access_changed item)
            w in
        (t.processed ≡ creator_id ∷ w.processed)
        × (t.budget.last_success_at ≡ now)
        × (stopped ≡ false)
  unfolding after_run on_success
  skipped_item-processed config now item creator_id w gated marked h =
      let idle = out_of_scope-idle config w.access_changed item creator_id gated h in
      ground (arith, idle, marked)

module _ (outside : ℕ → Outside) where
  if-IsDrained :
      (clock : ℕ → ℕ) (config : Config) (n : ℕ) (items left : List WorkItem) (w t : Worker)
      (stopped : Bool) (rest : Worker × List WorkItem)
      → (stopped ≡ true → IsDrained outside clock config n items left w t)
      → (stopped ≡ false → IsDrained outside clock config n items rest.1 w rest.0)
      → IsDrained outside clock config n items
          (if stopped then (t, left) else rest).1
          w
          (if stopped then (t, left) else rest).0
  if-IsDrained clock config n items left w t true rest ended on = ended refl
  if-IsDrained clock config n items left w t false rest ended on = on refl

  -- A worker over a queue of items runs them in their order, each at most once and each in the registry
  -- that the run before left, up to the end of the queue or to the first run that is fatal, and never
  -- stops at another. A run is fatal if it ends with an unrecoverable error or a fatal status, or with any
  -- error later after the last success than the timeout. The worker keeps all runs and the time of the
  -- last success, and the creators that it marks as processed are exactly those of the items whose run
  -- ended without an exception.
  pub worker_loop-IsDrained :
      (clock : ℕ → ℕ) (config : Config) (n : ℕ) (items : List WorkItem) (w : Worker)
      → IsDrained outside clock config n items
          (worker_loop outside clock config n items w).1
          w
          (worker_loop outside clock config n items w).0
  unfolding worker_loop items_of push_runs credit
  worker_loop-IsDrained clock config n [] w = record {
    handled = [];
    in_order = refl;
    ran = emptied;
    kept_runs = refl;
    credited = refl;
  }
  worker_loop-IsDrained clock config n (item ∷ items) w =
      let run = handle_work_item (outside n) config w.access_changed item in
      let step = after_run config.use_following (clock n) item run w in
      let (marks, keeps, registry, timeout, since, stops) =
        after_run-lem config.use_following (clock n) item run w in
      let rest = worker_loop outside clock config (n + 1) items step.0 in
      let more = worker_loop-IsDrained clock config (n + 1) items step.0 in
      if-IsDrained clock config n (item ∷ items) items w step.0 step.1 rest
        (λ ended. record {
          handled = (item, run) ∷ [];
          in_order = refl;
          ran =
              let fatal = sym stops ∙ ended in
              subst
                (λ last.
                  Runs outside clock config w.budget.timeout_seconds n w.budget.last_success_at
                    w.access_changed (item ∷ items) ((item, run) ∷ []) items last)
                (fatal-since w.budget.timeout_seconds (clock n) w.budget.last_success_at run fatal
                  ∙ sym since)
                (gave_up fatal);
          kept_runs = keeps;
          credited = marks;
        })
        (λ on. record {
          handled = (item, run) ∷ more.handled;
          in_order = ap (◌∷◌ item) more.in_order;
          ran = went_on (sym stops ∙ on) (rw (registry, timeout, since) at more.ran);
          kept_runs = ground (arith, more.kept_runs, keeps);
          credited = ground (arith, more.credited, marks);
        })

  after_run-soft :
      (use_following : Bool) (now base : ℕ) (item : WorkItem) (run : Run) (w : Worker)
      → is_soft run.failure ≡ true
      → base ≤ now
      → now ≤ base + w.budget.timeout_seconds
      → base ≤ w.budget.last_success_at
      → ((after_run use_following now item run w).1 ≡ false)
        × (base ≤ (after_run use_following now item run w).0.budget.last_success_at)
        × ((after_run use_following now item run w).0.budget.timeout_seconds
            ≡ w.budget.timeout_seconds)
  unfolding after_run on_error on_success
  after_run-soft use_following now base item run w soft_failure low high since =
      elim (Option-cases run.failure) [
        | inl fine ↦ ground (arith, fine)
        | inr (e, failed) ↦ ground (arith, failed)
      ]

  -- If what the handlers call never raises an unrecoverable error or a fatal status, and all readings
  -- of the clock lie within the timeout after a time that is no later than the last success, the
  -- worker handles every item of the queue: no failed item stops the others.
  pub worker_loop-drains :
      (clock : ℕ → ℕ) (config : Config) (base n : ℕ) (items : List WorkItem) (w : Worker)
      → ((m : ℕ) → IsSoft (outside m))
      → ((m : ℕ) → (base ≤ clock m) × (clock m ≤ base + w.budget.timeout_seconds))
      → base ≤ w.budget.last_success_at
      → (worker_loop outside clock config n items w).1 ≡ []
  unfolding worker_loop
  worker_loop-drains clock config base n [] w soft_calls times since = refl
  worker_loop-drains clock config base n (item ∷ items) w soft_calls times since =
      let run = handle_work_item (outside n) config w.access_changed item in
      let step = after_run config.use_following (clock n) item run w in
      let (goes_on, later, same) =
        after_run-soft config.use_following (clock n) base item run w
          (handle_work_item-soft (outside n) (soft_calls n) config w.access_changed item)
          (times n).0 (times n).1 since in
      let rest =
        worker_loop-drains clock config base (n + 1) items step.0 soft_calls
          (λ m. ground (arith, times m, same)) later in
      ground (arith, goes_on, rest)
