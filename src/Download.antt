-- ===== src/Download.antt =====
-- The downloads: the counters of download/ and the choice of a rendition in media/media.py.
pub mod Statistics
pub mod Variants
