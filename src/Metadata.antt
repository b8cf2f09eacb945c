-- ===== src/Metadata.antt =====
-- The entities and their store: metadata/.

pub mod Identity
pub mod Objects
pub mod Sorting
pub mod Query
pub mod Session
pub mod Searches
pub mod Subscriptions
pub mod Follows
pub mod Tests
