-- ===== src/Daemon/Runner/Soft.antt =====
-- daemon/runner.py: when no run of a work item can end in an error that stops the daemon by itself.
use fansly_scraper.Common.{
  Bool, true, false, not, ◌&&◌, Option, none, some, List, [], ◌∷◌, map, if◌then◌else◌, ◌≡◌, refl,
  arith,
}
use fansly_scraper.Common.Classes.{codes_keyed, int_keyed}
use fansly_scraper.Common.Dict.{Dict, get}
use fansly_scraper.Common.Int.{ℤ}
use fansly_scraper.Daemon.Handlers.{
  WorkItem, download_messages_for_group, full_creator_download, redownload_creator_media,
  check_creator_access, download_stories_only, download_timeline_only, mark_messages_deleted,
}
use fansly_scraper.Helpers.Text.{Text}
use fansly_scraper.Daemon.Runner.{
  Failure, is_hard_fatal, Config, is_empty, is_username_in_scope, Lookup, fails, absent, named,
  Call, account_info, timeline, stories, messages, messages_for_group, wall, Pending, Outside, Run,
  Scope, in_scope, out_of_scope, unknown, scope_of,
}
use fansly_scraper.Daemon.Runner.Items.{
  creator_scope, resolve_creator_name, run_calls, scope_of_account, default_ppv, is_pure_ppv,
  targeted_calls, with_stash, without_stash, unless_unnamed, if_in_scope, handle_full_creator,
  sender_name, sender_scope, handle_messages, collect_ppv_targeted_media_ids, handle_redownload,
  handle_check_access, handle_stories_only, handle_timeline_only, mark_deleted, deleted_time,
  marked_at, handle_mark_deleted, run_item, gated_creator, handle_work_item,
}
use fansly_scraper.Daemon.Runner.Worker.{is_unrecoverable}

-- an error that is not fatal by itself
abbrev pub is_soft : Option Failure → Bool
is_soft none = true
is_soft (some e) = not (is_unrecoverable e) && not (is_hard_fatal e)

-- the calls and saves raise soft errors only
pub record IsSoft (outside : Outside) : Type 0 where
  pub soft_calls : (c : Call) → is_soft (outside.raises c) ≡ true
  pub soft_saves : (id : ℤ) → is_soft (outside.save_raises id) ≡ true

abbrev is_soft_scope : Scope → Bool
is_soft_scope in_scope = true
is_soft_scope out_of_scope = true
is_soft_scope (unknown e) = is_soft (some e)

scope_of-soft : (b : Bool) → is_soft_scope (scope_of b) ≡ true
scope_of-soft true = refl
scope_of-soft false = refl

module _ (outside : Outside) (gentle : IsSoft outside) where
  if_in_scope-soft :
      (registry : Dict ℤ Pending) (scope : Scope) (run : Run)
      → is_soft_scope scope ≡ true
      → is_soft run.failure ≡ true
      → is_soft (if_in_scope outside registry scope run).failure ≡ true
  if_in_scope-soft registry in_scope run h k = k
  if_in_scope-soft registry out_of_scope run h k = refl
  if_in_scope-soft registry (unknown e) run h k = h

  unless_unnamed-soft :
      (registry : Dict ℤ Pending) (name : Option Text) (run : Text → Run)
      → ((n : Text) → is_soft (run n).failure ≡ true)
      → is_soft (unless_unnamed outside registry name run).failure ≡ true
  unless_unnamed-soft registry none run h = refl
  unless_unnamed-soft registry (some n) run h = h n

  with_stash-soft :
      (config : Config) (name : Option Text) (registry : Dict ℤ Pending)
      (r : List Call × Option Failure)
      → is_soft r.1 ≡ true
      → is_soft (with_stash outside config name registry r).failure ≡ true
  unfolding with_stash
  with_stash-soft config name registry (done, none) h = refl
  with_stash-soft config name registry (done, some e) h = h

  run_calls-soft : (cs : List Call) → is_soft (run_calls outside cs).1 ≡ true
  unfolding run_calls
  run_calls-soft [] = refl
  run_calls-soft (c ∷ cs) = ground (arith, gentle.soft_calls c, run_calls-soft cs)

  mark_deleted-soft : (at : ℤ) (ids : List ℤ) → is_soft (mark_deleted outside at ids).1 ≡ true
  unfolding mark_deleted
  mark_deleted-soft at [] = refl
  mark_deleted-soft at (id ∷ ids) = ground (arith, gentle.soft_saves id, mark_deleted-soft at ids)

  marked_at-soft : (ids : List ℤ) (at : Option ℤ) → is_soft (marked_at outside ids at).1 ≡ true
  unfolding marked_at
  marked_at-soft ids none = refl
  marked_at-soft ids (some at) = mark_deleted-soft at ids

  scope_of_account-soft :
      (config : Config) (l : Lookup) → is_soft_scope (scope_of_account outside config l) ≡ true
  unfolding scope_of_account
  scope_of_account-soft config fails = refl
  scope_of_account-soft config absent = refl
  scope_of_account-soft config (named username) =
      scope_of-soft (is_username_in_scope config username)

  sender_scope-soft :
      (config : Config) (creator : Option ℤ)
      → is_soft_scope (sender_scope outside config creator) ≡ true
  unfolding sender_scope creator_scope
  sender_scope-soft config none = refl
  sender_scope-soft config (some id) =
      ground (arith, scope_of_account-soft config (outside.stored id))

  stashed-soft :
      (config : Config) (registry : Dict ℤ Pending) (creator_id : ℤ) (cs : List Call)
      → is_soft
          (unless_unnamed outside registry
            (resolve_creator_name outside creator_id)
            λ name. with_stash outside config (some name) registry (run_calls outside cs)).failure
        ≡ true
  stashed-soft config registry creator_id cs =
      unless_unnamed-soft registry (resolve_creator_name outside creator_id)
        (λ name. with_stash outside config (some name) registry (run_calls outside cs))
        λ name.
          with_stash-soft config (some name) registry (run_calls outside cs) (run_calls-soft cs)

  if-soft :
      (b : Bool) (r s : Run)
      → is_soft r.failure ≡ true
      → is_soft s.failure ≡ true
      → is_soft (if b then r else s).failure ≡ true
  if-soft true r s h k = h
  if-soft false r s h k = k

  redownload-soft :
      (config : Config) (registry : Dict ℤ Pending) (creator_id : ℤ) (media_id bundle_id : Option ℤ)
      → is_soft (handle_redownload outside config registry creator_id media_id bundle_id).failure
        ≡ true
  unfolding handle_redownload
  redownload-soft config registry creator_id media_id bundle_id =
      let ids = collect_ppv_targeted_media_ids outside media_id bundle_id in
      let walk = account_info ∷ timeline ∷ messages ∷ [] in
      let noted = default_ppv outside creator_id registry in
      let pure = not (is_empty ids) && is_pure_ppv outside (get registry creator_id) in
      let targeted =
        without_stash outside registry (run_calls outside (targeted_calls outside ids)) in
      let full =
        λ (name : Text). with_stash outside config (some name) noted (run_calls outside walk) in
      unless_unnamed-soft registry (resolve_creator_name outside creator_id)
        (λ name. if pure then targeted else full name)
        λ name.
          if-soft pure targeted (full name) (run_calls-soft (targeted_calls outside ids)) (
            with_stash-soft config (some name) noted (run_calls outside walk) (run_calls-soft walk))

  run_item-soft :
      (config : Config) (registry : Dict ℤ Pending) (item : WorkItem)
      → is_soft (run_item outside config registry item).failure ≡ true
  unfolding run_item handle_messages handle_full_creator handle_redownload handle_check_access
      handle_stories_only handle_timeline_only handle_mark_deleted
  run_item-soft config registry (download_messages_for_group group_id sender_id) =
      let cs = messages_for_group group_id ∷ [] in
      let name = outside.group_name group_id (sender_name outside sender_id) in
      if_in_scope-soft registry (sender_scope outside config sender_id)
        (with_stash outside config name registry (run_calls outside cs))
        (sender_scope-soft config sender_id)
        (with_stash-soft config name registry (run_calls outside cs) (run_calls-soft cs))
  run_item-soft config registry (full_creator_download creator_id) =
      let cs = account_info ∷ timeline ∷ stories false ∷ messages ∷ map wall outside.walls in
      if_in_scope-soft registry (creator_scope outside config creator_id)
        (unless_unnamed outside registry (resolve_creator_name outside creator_id)
          λ name. with_stash outside config (some name) registry (run_calls outside cs))
        (sender_scope-soft config (some creator_id)) (stashed-soft config registry creator_id cs)
  run_item-soft config registry (redownload_creator_media creator_id media_id bundle_id) =
      redownload-soft config registry creator_id media_id bundle_id
  run_item-soft config registry (check_creator_access creator_id) =
      unless_unnamed-soft registry (resolve_creator_name outside creator_id)
        (λ name. without_stash outside registry (run_calls outside (account_info ∷ [])))
        λ name. run_calls-soft (account_info ∷ [])
  run_item-soft config registry (download_stories_only creator_id) =
      stashed-soft config registry creator_id (account_info ∷ stories false ∷ [])
  run_item-soft config registry (download_timeline_only creator_id) =
      stashed-soft config registry creator_id (account_info ∷ timeline ∷ [])
  run_item-soft config registry (mark_messages_deleted ids deleted_at) =
      marked_at-soft ids (deleted_time outside deleted_at)

  -- where the calls raise soft errors only, so do the runs of the items
  pub handle_work_item-soft :
      (config : Config) (registry : Dict ℤ Pending) (item : WorkItem)
      → is_soft (handle_work_item outside config registry item).failure ≡ true
  unfolding handle_work_item
  handle_work_item-soft config registry item =
      if_in_scope-soft registry (sender_scope outside config (gated_creator outside item))
        (run_item outside config registry item)
        (sender_scope-soft config (gated_creator outside item)) (run_item-soft config registry item)
