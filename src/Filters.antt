-- ===== src/Filters.antt =====
-- The filters of the configuration: config/media_filters.py, config/wall_filters.py and the gates of
-- download/ that use them.
pub mod Media
pub mod Gate
pub mod Walls
pub mod Tests
