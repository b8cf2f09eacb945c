-- ===== src/Download/Statistics.antt =====
-- download/globalstate.py, downloadstate.py and statistics.py: the counters of one creator and of
-- all. The counters are never negative; the time of the start is left out, nothing computes with it.
pub mod Totals
pub mod Batches
pub mod Tests
use fansly_scraper.Common.{ℕ, ◌+◌, ◌-◌, List, [], ◌∷◌, String}

-- `DownloadStats`
pub record DownloadStats : Type 0 where
  pub total_count : ℕ
  pub skipped_count : ℕ
  pub failed_count : ℕ
  pub total_size : ℕ
  pub total_size_str : String

-- `GlobalState`
pub record GlobalState : Type 0 where
  pub duplicate_count : ℕ
  pub filtered_count : ℕ
  pub pic_count : ℕ
  pub vid_count : ℕ
  pub total_message_items : ℕ
  pub total_timeline_pictures : ℕ
  pub total_timeline_videos : ℕ
  pub download_stats : DownloadStats

-- the counters of `DownloadState`: those of its base class and those of the current batch
pub record DownloadState : Type 0 where
  pub base : GlobalState
  pub current_batch_duplicates : ℕ

abbrev pub new_download_stats : DownloadStats
new_download_stats = record {
  total_count = 0;
  skipped_count = 0;
  failed_count = 0;
  total_size = 0;
  total_size_str = "0 B";
}

abbrev pub new_global_state : GlobalState
new_global_state = record {
  duplicate_count = 0;
  filtered_count = 0;
  pic_count = 0;
  vid_count = 0;
  total_message_items = 0;
  total_timeline_pictures = 0;
  total_timeline_videos = 0;
  download_stats = new_download_stats;
}

unfoldable pub total_timeline_items : GlobalState → ℕ
total_timeline_items s = s.total_timeline_pictures + s.total_timeline_videos

unfoldable pub total_downloaded_items : GlobalState → ℕ
total_downloaded_items s = s.pic_count + s.vid_count

-- `max(items - downloaded - duplicates, 0)`: the subtraction stops at zero
unfoldable pub missing_items_count : GlobalState → ℕ
unfolding total_timeline_items total_downloaded_items
missing_items_count s =
    total_timeline_items s + s.total_message_items - total_downloaded_items s - s.duplicate_count

unfoldable pub start_batch : DownloadState → DownloadState
start_batch s = record s { current_batch_duplicates = 0 }

unfoldable pub add_duplicate : DownloadState → DownloadState
add_duplicate s = record {
  base = record s.base { duplicate_count = s.base.duplicate_count + 1 };
  current_batch_duplicates = s.current_batch_duplicates + 1;
}

unfoldable pub update_global_statistics : GlobalState → GlobalState → GlobalState
update_global_statistics g s = record {
  duplicate_count = g.duplicate_count + s.duplicate_count;
  filtered_count = g.filtered_count + s.filtered_count;
  pic_count = g.pic_count + s.pic_count;
  vid_count = g.vid_count + s.vid_count;
  total_message_items = g.total_message_items + s.total_message_items;
  total_timeline_pictures = g.total_timeline_pictures + s.total_timeline_pictures;
  total_timeline_videos = g.total_timeline_videos + s.total_timeline_videos;
  download_stats = record {
    total_count = g.download_stats.total_count + s.download_stats.total_count;
    skipped_count = g.download_stats.skipped_count + s.download_stats.skipped_count;
    failed_count = g.download_stats.failed_count + s.download_stats.failed_count;
    total_size = g.download_stats.total_size + s.download_stats.total_size;
    total_size_str = s.download_stats.total_size_str;
  };
}

-- The creators, one after the other.
unfoldable pub update_all : GlobalState → List GlobalState → GlobalState
update_all g [] = g
update_all g (s ∷ ss) = update_all (update_global_statistics g s) ss
