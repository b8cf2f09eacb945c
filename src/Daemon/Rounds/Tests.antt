-- ===== src/Daemon/Rounds/Tests.antt =====
-- A round of the home timeline's poll, and the conditions of its theorem at a concrete input.
use fansly_scraper.Common.{
  ℕ, ◌++◌, true, false, Option, none, some, List, [], ◌∷◌, map, ◌≡◌, refl, if◌then◌else◌,
}
use fansly_scraper.Common.Classes.{codes_keyed, int_keyed}
use fansly_scraper.Common.Dict.{Dict, get}
use fansly_scraper.Common.Int.{ℤ, pos, int_ltb, int_scale}
use fansly_scraper.Common.Sets.{are_distinct, member, add}
use fansly_scraper.Daemon.Filters.{
  last_checked, Loaded, Response, request_failed, should_process_creator, with_prefetched,
  examine_page, first_unpinned, is_newer_than_baseline, effective_baseline, objects, oldest_id,
  paginate, posts_of,
}
use fansly_scraper.Daemon.Handlers.{download_timeline_only}
use fansly_scraper.Daemon.Rounds.{
  Round, timeline_round, process_timeline_candidate, should, baseline_for, enqueue,
}
use fansly_scraper.Daemon.Rounds.Candidates.{chosen, is_due, timeline_round_lem}
use fansly_scraper.Daemon.Runner.{on_success, Config, absent, Outside}
use fansly_scraper.Daemon.Runner.Items.{creator_scope}
use fansly_scraper.Helpers.Json.{
  Value, int, str, Fields, field, end, truthy, field_or_null, expect_dict, get_field,
}
use fansly_scraper.Helpers.Result.{ok, raise, value_error}
use fansly_scraper.Helpers.Timestamp.{Datetime, parse_timestamp}

-- microseconds since the epoch; only a number is a timestamp
abbrev utc : Datetime
utc = record {
  Instant = ℤ;
  from_int = λ millis n. ok (int_scale n (if millis then 1000 else 1000000));
  from_float = λ millis d. raise value_error;
  from_iso = λ s. raise value_error;
  later = λ a b. ok (int_ltb b a);
}

abbrev config : Config
config = record { use_following = true; user_names = []; stash_active = false }

abbrev outside : Outside
outside = record {
  cached_name = λ n. none;
  stored = λ n. absent;
  walls = [];
  bundle_media = λ n. none;
  accessible = λ ids. ids;
  raises = λ c. none;
  leaves = λ calls registry. registry;
  group_name = λ group name. name;
  message = λ n. none;
  save_raises = λ n. none;
  now = pos 50;
  is_epoch = λ n. true;
}

abbrev start : Round
start = record {
  queue = [];
  budget = record { timeout_seconds = 600; last_success_at = 100 };
  consumed = pos 3 ∷ [];
  queued_any = false;
}

-- a post of creator 1 after the baseline, and one of creator 2 before it; creator 3 has been checked
abbrev posts : Dict ℤ (List Fields)
posts =
    (pos 1, field "id" (str "8") (field "createdAt" (int (pos 1800000000)) end) ∷ [])
    ∷ (pos 2, field "id" (str "9") (field "createdAt" (int (pos 1600000000)) end) ∷ [])
    ∷ (pos 3, field "id" (str "9") (field "createdAt" (int (pos 1600000000)) end) ∷ [])
    ∷ []

abbrev polled_creators : List ℤ
polled_creators = pos 1 ∷ pos 2 ∷ pos 3 ∷ []

abbrev down : ℤ → ℕ → Value → Response
down creator_id round cursor = request_failed

abbrev checked : ℤ → Loaded ℤ
checked creator_id = last_checked (some (pos 1500000000000000))

abbrev baseline : Option ℤ
baseline = some (pos 1700000000000000)

-- creator 2 has nothing after the session's baseline, creator 3 something after its own
queued_first :
    (timeline_round utc outside config down checked baseline 500 posts polled_creators
      start).0.queue
    ≡ download_timeline_only (pos 1) ∷ download_timeline_only (pos 3) ∷ []
unfolding timeline_round process_timeline_candidate creator_scope should should_process_creator
    baseline_for member with_prefetched examine_page get first_unpinned truthy field_or_null
    is_newer_than_baseline parse_timestamp enqueue add effective_baseline objects oldest_id paginate
    posts_of expect_dict get_field on_success
queued_first = refl

timeline_round_lem_example :
    let (t, failure) =
      timeline_round utc outside config down checked baseline 500 posts polled_creators start in
    (failure ≡ none)
    × (t.queue
        ≡ []
          ++ map download_timeline_only (
              chosen
                (is_due utc outside config down checked baseline (pos 3 ∷ []) posts)
                polled_creators))
unfolding creator_scope are_distinct member
timeline_round_lem_example =
    timeline_round_lem utc outside config down checked baseline 500 posts polled_creators start refl
      (λ c. refl)
