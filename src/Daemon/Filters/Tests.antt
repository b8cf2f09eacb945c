-- ===== src/Daemon/Filters/Tests.antt =====
-- Timelines against a baseline, and the theorems about them at concrete inputs.
use fansly_scraper.Common.{
  ℕ, ◌^◌, ◌≡◌, refl, true, none, some, List, [], ◌∷◌, ◌++◌, map, if◌then◌else◌,
}
use fansly_scraper.Common.Int.{ℤ, pos, int_ltb, int_scale, int_quot}
use fansly_scraper.Helpers.Result.{ok, raise, value_error}
use fansly_scraper.Helpers.Json.{
  Double, finite, infinite, nan, Value, bool, int, str, obj, Fields, end, field, get_field,
}
use fansly_scraper.Helpers.Timestamp.{Datetime}
use fansly_scraper.Daemon.Filters.{
  load_failed, last_checked, Response, request_failed, effective_baseline, should_process_creator,
  with_prefetched, paginate, posts_of,
}
use fansly_scraper.Daemon.Filters.Scan.{
  timeline, next_cursor, first_is_newer, unpinned, collected, should_process-verdict,
}

-- microseconds since the epoch; no text is a timestamp
abbrev micros : Double → ℤ
micros (finite m k) = int_quot (int_scale m 1000000) (2 ^ k)
micros (infinite b) = pos 0
micros nan = pos 0

abbrev utc : Datetime
utc = record {
  Instant = ℤ;
  from_int = λ millis n. ok (int_scale n (if millis then 1000 else 1000000));
  from_float = λ millis d. ok (micros d);
  from_iso = λ s. raise value_error;
  later = λ a b. ok (int_ltb b a);
}

abbrev pinned_post : Fields
pinned_post =
    field "id" (str "9") (field "pinned" (bool true) (field "createdAt" (int (pos 1800000000)) end))

abbrev old_post : Fields
old_post = field "id" (str "8") (field "createdAt" (int (pos 1600000000)) end)

abbrev undated_post : Fields
undated_post = field "id" (str "7") end

abbrev baseline : ℤ
baseline = pos 1700000000000000

abbrev pages : ℕ → Value → Fields
pages round cursor = old_post

abbrev no_more : ℕ → Value → List Fields
no_more round cursor = []

has_baseline : effective_baseline utc none (last_checked (some baseline)) ≡ some baseline
unfolding effective_baseline
has_baseline = refl

should_process-verdict_example :
    (should_process_creator utc
      (timeline utc baseline pages no_more)
      none
      (last_checked (some baseline))
      (some (map obj (pinned_post ∷ [])))).answer
    ≡ first_is_newer utc baseline (
        unpinned (
          (pinned_post ∷ [])
          ++ collected utc baseline pages no_more 3 0 (next_cursor pinned_post [])))
should_process-verdict_example =
    should_process-verdict utc baseline pages no_more none (last_checked (some baseline))
      pinned_post [] has_baseline

abbrev down : ℕ → Value → Response
down round cursor = request_failed

-- A request that fails processes the creator.
outage_processes :
    (should_process_creator utc down (some baseline) load_failed none).answer ≡ ok true
unfolding should_process_creator with_prefetched paginate posts_of
outage_processes = refl

no_created : get_field undated_post "createdAt" ≡ none
unfolding get_field
no_created = refl
