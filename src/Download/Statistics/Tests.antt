-- ===== src/Download/Statistics/Tests.antt =====
-- The counters of two creators, and the theorems at them.
use fansly_scraper.Common.{◌≡◌, refl, [], ◌∷◌}
use fansly_scraper.Download.Statistics.{
  GlobalState, DownloadState, new_global_state, new_download_stats, missing_items_count,
  update_global_statistics, update_all,
}

abbrev first : GlobalState
first = record new_global_state {
  total_timeline_pictures = 5;
  pic_count = 2;
  download_stats = record new_download_stats { total_size = 2048; total_size_str = "2 KB" };
}

abbrev second : GlobalState
second = record new_global_state {
  pic_count = 1;
  download_stats = record new_download_stats { total_size = 100; total_size_str = "100 B" };
}

one_hidden : missing_items_count (update_all new_global_state (first ∷ second ∷ [])) ≡ 2
unfolding missing_items_count update_all update_global_statistics
one_hidden = refl

abbrev state : DownloadState
state = record { base = first; current_batch_duplicates = 0 }
