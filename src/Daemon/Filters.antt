-- ===== src/Daemon/Filters.antt =====
-- daemon/filters.py: is there anything newer than the baseline on a creator's timeline? The API is
-- a function of the request's number and of the cursor; `str(cursor)` is what is sent.
pub mod Scan
pub mod Requests
mod Tests
use fansly_scraper.Common.{
  ℕ, zero, suc, Bool, true, false, Option, none, some, List, [], ◌∷◌, ◌++◌, String, if◌then◌else◌,
}
use fansly_scraper.Common.Int.{pos}
use fansly_scraper.Helpers.Result.{
  Result, ok, raise, type_error, value_error, overflow_error, ◌>>=◌,
}
use fansly_scraper.Helpers.Json.{
  Value, null, int, str, arr, obj, nil, Fields, items, get_field, field_or_null, truthy,
  expect_dict,
}
use fansly_scraper.Helpers.Timestamp.{Datetime, parse_timestamp}

abbrev pub max_filter_pages : ℕ
max_filter_pages = 3

-- What `store.get(MonitorState, creator_id)` gives: an exception, no row, or the row's
-- `lastCheckedAt`.
pub data Loaded (I : Type 0) : Type 0 where
  load_failed : Loaded I
  no_state : Loaded I
  last_checked : Option I → Loaded I

-- the requested cursors, in order, and the answer
pub record Decision : Type 0 where
  pub cursors : List Value
  pub answer : Result Bool

-- d.get(key, default)
abbrev pub field_or : Fields → String → Value → Value
field_or fs k d = elim (get_field fs k) [ none ↦ d | some v ↦ v ]

-- `except (ValueError, TypeError): latest = None`
abbrev no_instant {ℓ} : {I : Type ℓ} → Result (Option I) → Result (Option I)
no_instant (ok o) = ok o
no_instant (raise value_error) = ok none
no_instant (raise type_error) = ok none
no_instant (raise e) = raise e

-- [expect_dict(p, "post") for p in posts]
unfoldable pub objects : List Value → Result (List Fields)
unfolding expect_dict
objects [] = ok []
objects (v ∷ vs) = do fs ← expect_dict v; rest ← objects vs; ok (fs ∷ rest)

-- the first of the posts that are not pinned
unfoldable pub first_unpinned : List Fields → Option Fields
first_unpinned [] = none
first_unpinned (p ∷ ps) = if truthy (field_or_null p "pinned") then first_unpinned ps else some p

-- posts[-1].get("id", "0")
unfoldable pub oldest_id : List Value → Result Value
unfolding expect_dict
oldest_id [] = ok (str "0")
oldest_id (v ∷ []) = do fs ← expect_dict v; ok (field_or fs "id" (str "0"))
oldest_id (v ∷ w ∷ vs) = oldest_id (w ∷ vs)

-- A request for a page: an exception of the request, or the decoded response.
pub data Response : Type 0 where
  request_failed : Response
  response : Value → Response

-- The posts of a response; `none` where the `try` block catches an exception.
unfoldable pub posts_of : Response → Option (List Value)
posts_of (response (obj fs)) = elim (field_or fs "posts" (arr nil)) [
  | arr vs ↦ some (items vs)
  | _ ↦ none
]
posts_of _ = none

module _ (dt : Datetime) where
  open dt use {Instant, later}

  unfoldable pub is_newer_than_baseline : Fields → Instant → Result Bool
  is_newer_than_baseline post baseline = do
    latest ← no_instant (parse_timestamp dt (field_or post "createdAt" (int (pos 0))))
    elim latest [ none ↦ ok true | some t ↦ later t baseline ]

  -- `none`: every post of the page is pinned
  abbrev pub judge : Instant → Option Fields → Result (Option Bool)
  judge baseline none = ok none
  judge baseline (some p) = do newer ← is_newer_than_baseline p baseline; ok (some newer)

  unfoldable pub examine_page : List Value → Instant → Result (Option Bool)
  unfolding objects
  examine_page [] baseline = ok (some false)
  examine_page (v ∷ vs) baseline = do page ← objects (v ∷ vs); judge baseline (first_unpinned page)

  module _ (fetch : ℕ → Value → Response) (baseline : Instant) where
    -- The requests that a page has cost, before those of the later pages.
    abbrev pub asking : List Value → Decision → Decision
    asking asked d = record d { cursors = asked ++ d.cursors }

    abbrev pub settle : Result Bool → Decision
    settle r = record { cursors = []; answer = r }

    -- on to the next page, from the oldest post of an all-pinned page
    abbrev pub advance : (Value → Decision) → Result Value → Decision
    advance rest (raise e) = settle (raise e)
    advance rest (ok next) = rest next

    abbrev pub examined : (Value → Decision) → List Value → Result (Option Bool) → Decision
    examined rest posts (raise e) = settle (raise e)
    examined rest posts (ok (some decided)) = settle (ok decided)
    examined rest posts (ok none) = advance rest (oldest_id posts)

    abbrev pub with_page : (Value → Decision) → Option (List Value) → Decision
    with_page rest none = settle (ok true)
    with_page rest (some posts) = examined rest posts (examine_page posts baseline)

    -- The loop over the pages: the rounds that are left, the number of the round, the cursor.
    unfoldable pub paginate : ℕ → ℕ → Value → Decision
    paginate zero round cursor = settle (ok false)
    paginate (suc left) round cursor =
        asking (cursor ∷ []) (with_page (paginate left (suc round)) (posts_of (fetch round cursor)))

    -- the prefetched first page, if there is one
    unfoldable pub with_prefetched : Option (List Value) → Decision
    with_prefetched none = paginate max_filter_pages 0 (str "0")
    with_prefetched (some posts) =
        examined (paginate max_filter_pages 0) posts (examine_page posts baseline)

  abbrev pub processed : Decision
  processed = record { cursors = []; answer = ok true }

  -- the effective baseline: the caller's, else that of the store
  unfoldable pub effective_baseline : Option Instant → Loaded Instant → Option Instant
  effective_baseline (some t) loaded = some t
  effective_baseline none load_failed = none
  effective_baseline none no_state = none
  effective_baseline none (last_checked o) = o

  -- no baseline: the first run for this creator, or a store that failed
  abbrev pub against : (ℕ → Value → Response) → Option (List Value) → Option Instant → Decision
  against fetch prefetched none = processed
  against fetch prefetched (some baseline) = with_prefetched fetch baseline prefetched

  unfoldable pub should_process_creator :
      (ℕ → Value → Response) → Option Instant → Loaded Instant → Option (List Value) → Decision
  unfolding effective_baseline
  should_process_creator fetch session_baseline loaded prefetched =
      against fetch prefetched (effective_baseline session_baseline loaded)
