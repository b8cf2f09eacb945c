-- ===== src/Daemon/Runner/Items.antt =====
-- daemon/runner.py: the handlers of the work items behind the scope check.
use fansly_scraper.Common.{
  Bool, true, false, not, ◌&&◌, Option, none, some, List, [], ◌∷◌, ◌++◌, map, if◌then◌else◌,
}
use fansly_scraper.Common.Classes.{codes_keyed, int_keyed}
use fansly_scraper.Common.Dict.{Dict, get, put, has_key}
use fansly_scraper.Common.Int.{ℤ}
use fansly_scraper.Common.Sets.{member}
use fansly_scraper.Daemon.Handlers.{
  WorkItem, download_messages_for_group, full_creator_download, redownload_creator_media,
  check_creator_access, download_stories_only, download_timeline_only, mark_messages_deleted,
}
use fansly_scraper.Helpers.Text.{Text}
use fansly_scraper.Daemon.Runner.{
  Failure, soft, Config, is_empty, is_username_in_scope, Lookup, fails, absent, named, Call,
  account_info, timeline, stories, messages, messages_for_group, wall, fetch_media, download_media,
  incremental_stash, Pending, ppv_purchase, other_reason, Outside, Run, idle_run, nonzero, Scope,
  in_scope, out_of_scope, unknown, scope_of,
}

module _ (outside : Outside) where
  unfoldable pub scope_of_account : Config → Lookup → Scope
  unfolding is_username_in_scope
  scope_of_account config fails = unknown soft
  scope_of_account config absent = out_of_scope
  scope_of_account config (named username) = scope_of (is_username_in_scope config username)

  unfoldable pub creator_scope : Config → ℤ → Scope
  unfolding scope_of_account
  creator_scope config creator_id =
      if config.use_following
      then in_scope
      else if is_empty config.user_names
      then in_scope
      else scope_of_account config (outside.stored creator_id)

  abbrev pub name_of : Lookup → Option Text
  name_of fails = none
  name_of absent = none
  name_of (named username) = some username

  -- `_resolve_creator_name`
  unfoldable pub resolve_creator_name : ℤ → Option Text
  resolve_creator_name creator_id = elim (outside.cached_name creator_id) [
    | some username ↦ some username
    | none ↦ name_of (outside.stored creator_id)
  ]

  -- a sequence of calls, up to the first that raises
  unfoldable pub run_calls : List Call → List Call × Option Failure
  run_calls [] = ([], none)
  run_calls (c ∷ cs) =
      let (done, failure) = run_calls cs in
      elim (outside.raises c) [ none ↦ (c ∷ done, failure) | some e ↦ (c ∷ [], some e) ]

  -- `_run_incremental_stash`, which raises nothing
  unfoldable pub stash_calls : Config → Option Text → List Call
  stash_calls config none = []
  stash_calls config (some name) =
      if config.stash_active && not (is_empty name) then incremental_stash ∷ [] else []

  -- the calls of a handler, and after them the Stash
  unfoldable pub with_stash :
      Config → Option Text → Dict ℤ Pending → List Call × Option Failure → Run
  unfolding stash_calls
  with_stash config name registry (done, some e) = record {
    calls = done;
    deleted = [];
    access_changed = outside.leaves done registry;
    failure = some e;
  }
  with_stash config name registry (done, none) = record {
    calls = done ++ stash_calls config name;
    deleted = [];
    access_changed = outside.leaves done registry;
    failure = none;
  }

  abbrev pub without_stash : Dict ℤ Pending → List Call × Option Failure → Run
  without_stash registry (done, failure) = record {
    calls = done;
    deleted = [];
    access_changed = outside.leaves done registry;
    failure = failure;
  }

  abbrev pub unless_unnamed : Dict ℤ Pending → Option Text → (Text → Run) → Run
  unless_unnamed registry none run = idle_run registry
  unless_unnamed registry (some name) run = run name

  -- a handler behind its own scope check
  abbrev pub if_in_scope : Dict ℤ Pending → Scope → Run → Run
  if_in_scope registry in_scope run = run
  if_in_scope registry out_of_scope run = idle_run registry
  if_in_scope registry (unknown e) run = record {
    calls = [];
    deleted = [];
    access_changed = registry;
    failure = some e;
  }

  -- `_handle_full_creator_item`
  unfoldable pub handle_full_creator : Config → Dict ℤ Pending → ℤ → Run
  unfolding creator_scope resolve_creator_name run_calls with_stash
  handle_full_creator config registry creator_id =
      if_in_scope registry (creator_scope config creator_id) (
        unless_unnamed registry (resolve_creator_name creator_id) λ name.
          with_stash config (some name) registry (
            run_calls
              (account_info ∷ timeline ∷ stories false ∷ messages ∷ map wall outside.walls)))

  unfoldable pub sender_name : Option ℤ → Option Text
  unfolding resolve_creator_name
  sender_name none = none
  sender_name (some sender) = resolve_creator_name sender

  unfoldable pub sender_scope : Config → Option ℤ → Scope
  unfolding creator_scope
  sender_scope config none = in_scope
  sender_scope config (some sender) = creator_scope config sender

  -- `_handle_messages_item`
  unfoldable pub handle_messages : Config → Dict ℤ Pending → ℤ → Option ℤ → Run
  unfolding sender_scope sender_name run_calls with_stash
  handle_messages config registry group_id sender_id =
      if_in_scope registry (sender_scope config sender_id) (
        with_stash config (outside.group_name group_id (sender_name sender_id)) registry
          (run_calls (messages_for_group group_id ∷ [])))

  abbrev pub add_ids : List ℤ → Option (List ℤ) → List ℤ
  add_ids ids none = ids
  add_ids ids (some []) = ids
  add_ids ids (some (id ∷ more)) =
      add_ids (if member id ids then ids else ids ++ id ∷ []) (some more)

  abbrev pub bundle_of : Option ℤ → Option (List ℤ)
  bundle_of none = none
  bundle_of (some bundle_id) = outside.bundle_media bundle_id

  -- `_collect_ppv_targeted_media_ids`
  unfoldable pub collect_ppv_targeted_media_ids : Option ℤ → Option ℤ → List ℤ
  collect_ppv_targeted_media_ids media_id bundle_id =
      add_ids (elim media_id [ none ↦ [] | some id ↦ id ∷ [] ]) (bundle_of bundle_id)

  abbrev pub is_pure_ppv : Option Pending → Bool
  is_pure_ppv none = true
  is_pure_ppv (some ppv_purchase) = true
  is_pure_ppv (some other_reason) = false

  -- the calls of the targeted re-download
  abbrev pub targeted_calls : List ℤ → List Call
  targeted_calls ids =
      account_info
      ∷ fetch_media ids
      ∷ (if is_empty (outside.accessible ids)
          then []
          else download_media (outside.accessible ids) ∷ [])

  -- registry.setdefault(creator_id, "ppv-purchase")
  abbrev pub default_ppv : ℤ → Dict ℤ Pending → Dict ℤ Pending
  default_ppv creator_id registry =
      if has_key registry creator_id then registry else put registry creator_id ppv_purchase

  -- `_handle_redownload_item`
  unfoldable pub handle_redownload : Config → Dict ℤ Pending → ℤ → Option ℤ → Option ℤ → Run
  unfolding resolve_creator_name collect_ppv_targeted_media_ids run_calls with_stash
  handle_redownload config registry creator_id media_id bundle_id =
      unless_unnamed registry (resolve_creator_name creator_id) λ name.
        let ids = collect_ppv_targeted_media_ids media_id bundle_id in
        if not (is_empty ids) && is_pure_ppv (get registry creator_id)
        then without_stash registry (run_calls (targeted_calls ids))
        else with_stash config (some name) (default_ppv creator_id registry)
            (run_calls (account_info ∷ timeline ∷ messages ∷ []))

  -- `_handle_check_access_item`
  unfoldable pub handle_check_access : Dict ℤ Pending → ℤ → Run
  unfolding resolve_creator_name run_calls
  handle_check_access registry creator_id =
      unless_unnamed registry (resolve_creator_name creator_id)
        λ name. without_stash registry (run_calls (account_info ∷ []))

  -- `_handle_stories_only_item`
  unfoldable pub handle_stories_only : Config → Dict ℤ Pending → ℤ → Run
  unfolding resolve_creator_name run_calls with_stash
  handle_stories_only config registry creator_id =
      unless_unnamed registry (resolve_creator_name creator_id) λ name.
        with_stash config (some name) registry (run_calls (account_info ∷ stories false ∷ []))

  -- `_handle_timeline_only_item`
  unfoldable pub handle_timeline_only : Config → Dict ℤ Pending → ℤ → Run
  unfolding resolve_creator_name run_calls with_stash
  handle_timeline_only config registry creator_id =
      unless_unnamed registry (resolve_creator_name creator_id)
        λ name. with_stash config (some name) registry (run_calls (account_info ∷ timeline ∷ []))

  -- the messages that are marked, up to the first save that raises; a lookup that raises is `none`
  unfoldable pub mark_deleted : ℤ → List ℤ → List (ℤ × ℤ) × Option Failure
  mark_deleted at [] = ([], none)
  mark_deleted at (id ∷ ids) =
      let (marked, failure) = mark_deleted at ids in
      elim (outside.message id) [
        | none ↦ (marked, failure)
        | some false ↦ (marked, failure)
        | some true ↦ elim (outside.save_raises id) [
          | none ↦ ((id, at) ∷ marked, failure)
          | some e ↦ ([], some e)
        ]
      ]

  -- `datetime.fromtimestamp` of the time in the payload, which may raise, or the time of receipt
  abbrev pub deleted_time : Option ℤ → Option ℤ
  deleted_time none = some outside.now
  deleted_time (some epoch) = if outside.is_epoch epoch then some epoch else none

  unfoldable pub marked_at : List ℤ → Option ℤ → List (ℤ × ℤ) × Option Failure
  unfolding mark_deleted
  marked_at ids none = ([], some soft)
  marked_at ids (some at) = mark_deleted at ids

  -- `_handle_mark_messages_deleted`
  unfoldable pub handle_mark_deleted : Dict ℤ Pending → List ℤ → Option ℤ → Run
  unfolding marked_at
  handle_mark_deleted registry ids deleted_at =
      let (marked, failure) = marked_at ids (deleted_time deleted_at) in
      record { calls = []; deleted = marked; access_changed = registry; failure = failure }

  -- `_WORK_DISPATCH`
  unfoldable pub run_item : Config → Dict ℤ Pending → WorkItem → Run
  unfolding handle_messages handle_full_creator handle_redownload handle_check_access
      handle_stories_only handle_timeline_only handle_mark_deleted
  run_item config registry (download_messages_for_group group_id sender_id) =
      handle_messages config registry group_id sender_id
  run_item config registry (full_creator_download creator_id) =
      handle_full_creator config registry creator_id
  run_item config registry (redownload_creator_media creator_id media_id bundle_id) =
      handle_redownload config registry creator_id media_id bundle_id
  run_item config registry (check_creator_access creator_id) =
      handle_check_access registry creator_id
  run_item config registry (download_stories_only creator_id) =
      handle_stories_only config registry creator_id
  run_item config registry (download_timeline_only creator_id) =
      handle_timeline_only config registry creator_id
  run_item config registry (mark_messages_deleted ids deleted_at) =
      handle_mark_deleted registry ids deleted_at

  -- getattr(item, "creator_id", None) or getattr(item, "sender_id", None)
  abbrev pub gated_creator : WorkItem → Option ℤ
  gated_creator (download_messages_for_group group_id sender_id) = sender_id
  gated_creator (full_creator_download creator_id) = nonzero creator_id
  gated_creator (redownload_creator_media creator_id media_id bundle_id) = nonzero creator_id
  gated_creator (check_creator_access creator_id) = nonzero creator_id
  gated_creator (download_stories_only creator_id) = nonzero creator_id
  gated_creator (download_timeline_only creator_id) = nonzero creator_id
  gated_creator (mark_messages_deleted ids deleted_at) = none

  -- `_handle_work_item`
  unfoldable pub handle_work_item : Config → Dict ℤ Pending → WorkItem → Run
  unfolding run_item sender_scope
  handle_work_item config registry item =
      if_in_scope registry (sender_scope config (gated_creator item))
        (run_item config registry item)
