-- ===== src/Download/Statistics/Batches.antt =====
-- The duplicates of a batch among all duplicates.
use fansly_scraper.Common.{ℕ, ◌+◌, ◌≤◌, ◌≡◌, List, [], ◌∷◌, arith}
use fansly_scraper.Download.Statistics.{DownloadState, start_batch, add_duplicate}

-- what the downloads call
pub data Action : Type 0 where
  batch_started duplicate_found : Action

unfoldable pub act : DownloadState → Action → DownloadState
act s batch_started = start_batch s
act s duplicate_found = add_duplicate s

unfoldable pub act_all : DownloadState → List Action → DownloadState
act_all s [] = s
act_all s (a ∷ acts) = act_all (act s a) acts

-- the duplicates since the last start of a batch
abbrev pub since_start : ℕ → List Action → ℕ
since_start n [] = n
since_start n (batch_started ∷ acts) = since_start 0 acts
since_start n (duplicate_found ∷ acts) = since_start (n + 1) acts

abbrev pub duplicates : List Action → ℕ
duplicates [] = 0
duplicates (batch_started ∷ acts) = duplicates acts
duplicates (duplicate_found ∷ acts) = 1 + duplicates acts

-- After any calls, the batch counter holds the duplicates since the last start of a batch, the
-- counter of the creator those of all calls besides what it held, and the batch counter does not
-- exceed the creator's if it did not before.
pub batch_lem :
    (s : DownloadState) (acts : List Action)
    → s.current_batch_duplicates ≤ s.base.duplicate_count
    → ((act_all s acts).current_batch_duplicates ≡ since_start s.current_batch_duplicates acts)
      × ((act_all s acts).base.duplicate_count ≡ s.base.duplicate_count + duplicates acts)
      × ((act_all s acts).current_batch_duplicates ≤ (act_all s acts).base.duplicate_count)
unfolding act_all act start_batch add_duplicate
batch_lem s [] h = ground arith
batch_lem s (batch_started ∷ acts) h = ground (arith, batch_lem (start_batch s) acts)
batch_lem s (duplicate_found ∷ acts) h = ground (arith, batch_lem (add_duplicate s) acts)
