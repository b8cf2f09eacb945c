-- ===== src/Daemon/Filters/Requests.antt =====
-- How many requests a decision costs.
use fansly_scraper.Common.{ℕ, zero, suc, ◌≤◌, Bool, Option, none, some, List, length, arith}
use fansly_scraper.Helpers.Result.{Result, ok, raise}
use fansly_scraper.Helpers.Json.{Value}
use fansly_scraper.Helpers.Timestamp.{Datetime}
use fansly_scraper.Daemon.Filters.{
  Loaded, Decision, Response, posts_of, oldest_id, examine_page, advance, examined, with_page,
  paginate, with_prefetched, against, effective_baseline, should_process_creator,
}

module _ (dt : Datetime) (fetch : ℕ → Value → Response) (baseline : dt.Instant) where
  advance-le :
      (n : ℕ) (rest : Value → Decision) (r : Result Value)
      → ((cursor : Value) → length (rest cursor).cursors ≤ n)
      → length (advance dt fetch baseline rest r).cursors ≤ n
  advance-le n rest (ok cursor) h = h cursor
  advance-le n rest (raise e) h = omega arith

  examined-le :
      (n : ℕ) (rest : Value → Decision) (posts : List Value) (r : Result (Option Bool))
      → ((cursor : Value) → length (rest cursor).cursors ≤ n)
      → length (examined dt fetch baseline rest posts r).cursors ≤ n
  examined-le n rest posts (ok none) h = advance-le n rest (oldest_id posts) h
  examined-le n rest posts (ok (some b)) h = omega arith
  examined-le n rest posts (raise e) h = omega arith

  with_page-le :
      (n : ℕ) (rest : Value → Decision) (o : Option (List Value))
      → ((cursor : Value) → length (rest cursor).cursors ≤ n)
      → length (with_page dt fetch baseline rest o).cursors ≤ n
  with_page-le n rest (some posts) h = examined-le n rest posts (examine_page dt posts baseline) h
  with_page-le n rest none h = omega arith

  paginate-le :
      (left round : ℕ) (cursor : Value)
      → length (paginate dt fetch baseline left round cursor).cursors ≤ left
  unfolding paginate
  paginate-le zero round cursor = omega arith
  paginate-le (suc left) round cursor = omega (
    arith,
    with_page-le left (paginate dt fetch baseline left (suc round)) (posts_of (fetch round cursor))
        (paginate-le left (suc round)),
  )

  with_prefetched-le :
      (prefetched : Option (List Value))
      → length (with_prefetched dt fetch baseline prefetched).cursors ≤ 3
  unfolding with_prefetched
  with_prefetched-le none = paginate-le 3 0 _
  with_prefetched-le (some posts) =
      examined-le 3 (paginate dt fetch baseline 3 0) posts (examine_page dt posts baseline)
        (paginate-le 3 0)

against-le :
    (dt : Datetime) (fetch : ℕ → Value → Response) (prefetched : Option (List Value))
    (o : Option dt.Instant)
    → length (against dt fetch prefetched o).cursors ≤ 3
against-le dt fetch prefetched none = omega arith
against-le dt fetch prefetched (some baseline) = with_prefetched-le dt fetch baseline prefetched

-- A decision about a creator costs at most three requests, whatever the API answers, whatever was
-- prefetched and whatever the baseline is.
pub requests_bounded :
    (dt : Datetime) (fetch : ℕ → Value → Response) (session : Option dt.Instant)
    (loaded : Loaded dt.Instant) (prefetched : Option (List Value))
    → length (should_process_creator dt fetch session loaded prefetched).cursors ≤ 3
unfolding should_process_creator
requests_bounded dt fetch session loaded prefetched =
    against-le dt fetch prefetched (effective_baseline dt session loaded)
