-- ===== src/Daemon/Runner.antt =====
-- daemon/runner.py: the error budget, the scope of creators and the calls of the work items, whose
-- handlers are in Runner/Items and whose worker is in Runner/Worker. The downloads, the account store
-- and the clock are arguments; log lines and the dashboard are left out.
pub mod Items
pub mod Worker
pub mod Soft
pub mod Runs
pub mod Drained
mod Tests
use fansly_scraper.Common.{
  ℕ, ◌+◌, ◌-◌, Bool, true, false, not, ◌&&◌, ◌||◌, Option, none, some, is_some, List, [], ◌∷◌, ◌++◌,
  map, any, ltb, nat_beq, if◌then◌else◌,
}
use fansly_scraper.Common.Classes.{Keyed, ◌==◌, codes_keyed, int_keyed}
use fansly_scraper.Common.Dict.{Dict, get, put, has_key}
use fansly_scraper.Common.Int.{ℤ, pos, int_beq}
use fansly_scraper.Common.Sets.{member, add}
use fansly_scraper.Daemon.Handlers.{
  WorkItem, download_messages_for_group, full_creator_download, redownload_creator_media,
  check_creator_access, download_stories_only, download_timeline_only, mark_messages_deleted,
}
use fansly_scraper.Helpers.Text.{Text, lower}

-- an exception that reaches the worker: DaemonUnrecoverableError, an HTTP status, or another
pub data Failure : Type 0 where
  unrecoverable : Failure
  http_status : ℕ → Failure
  soft : Failure

pub record ErrorBudget : Type 0 where
  pub timeout_seconds : ℕ
  pub last_success_at : ℕ

unfoldable pub on_success : ℕ → ErrorBudget → ErrorBudget
on_success now b = record b { last_success_at = now }

abbrev pub is_hard_fatal : Failure → Bool
is_hard_fatal (http_status status) = nat_beq status 401 || nat_beq status 418
is_hard_fatal unrecoverable = false
is_hard_fatal soft = false

-- true where it raises DaemonUnrecoverableError
unfoldable pub on_error : ℕ → Failure → ErrorBudget → Bool
on_error now e b = is_hard_fatal e || ltb b.timeout_seconds (now - b.last_success_at)

pub record Config : Type 0 where
  pub use_following : Bool
  pub user_names : List Text
  pub stash_active : Bool

abbrev pub is_empty {ℓ} : {T : Type ℓ} → List T → Bool
is_empty [] = true
is_empty (x ∷ xs) = false

unfoldable pub is_username_in_scope : Config → Text → Bool
unfolding lower
is_username_in_scope config username =
    if config.use_following
    then true
    else if is_empty config.user_names
    then true
    else if is_empty username
    then false
    else member (lower username) (map lower config.user_names)

-- what the store's `get` of an account does: it raises, finds none, or finds one with a name
pub data Lookup : Type 0 where
  fails : Lookup
  absent : Lookup
  named : Text → Lookup

-- a call of a download or of the API that a handler makes
pub data Call : Type 0 where
  account_info : Call
  timeline : Call
  stories : Bool → Call
  messages : Call
  messages_for_group : ℤ → Call
  wall : ℤ → Call
  fetch_media : List ℤ → Call
  download_media : List ℤ → Call
  incremental_stash : Call

-- a reason of the registry of access changes: a purchase, or any other
pub data Pending : Type 0 where
  ppv_purchase : Pending
  other_reason : Pending

-- What is outside: the account cache and table, the walls that the account has, the cached bundles
-- with their media, which media turn out accessible, the calls that raise, what calls make of the
-- registry and the name that the download of a group's messages leaves in the state; for the deletion
-- of a message its lookup, whether its save raises, the time, and which
-- numbers `datetime.fromtimestamp` takes.
pub record Outside : Type 0 where
  pub cached_name : ℤ → Option Text
  pub stored : ℤ → Lookup
  pub walls : List ℤ
  pub bundle_media : ℤ → Option (List ℤ)
  pub accessible : List ℤ → List ℤ
  pub raises : Call → Option Failure
  pub leaves : List Call → Dict ℤ Pending → Dict ℤ Pending
  pub group_name : ℤ → Option Text → Option Text
  pub message : ℤ → Option Bool
  pub save_raises : ℤ → Option Failure
  pub now : ℤ
  pub is_epoch : ℤ → Bool

-- what a handler did: its calls, the messages that it marked as deleted with their times, the
-- registry, and how it ended
pub record Run : Type 0 where
  pub calls : List Call
  pub deleted : List (ℤ × ℤ)
  pub access_changed : Dict ℤ Pending
  pub failure : Option Failure

abbrev pub idle_run : Dict ℤ Pending → Run
idle_run registry = record { calls = []; deleted = []; access_changed = registry; failure = none }

-- a falsy id is passed over
abbrev pub nonzero : ℤ → Option ℤ
nonzero n = if int_beq n (pos 0) then none else some n

-- `_is_creator_in_scope`, and the exception of the lookup
pub data Scope : Type 0 where
  in_scope : Scope
  out_of_scope : Scope
  unknown : Failure → Scope

abbrev pub scope_of : Bool → Scope
scope_of true = in_scope
scope_of false = out_of_scope
