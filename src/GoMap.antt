-- ===== src/GoMap.antt =====
-- Go's maps with string keys, as association lists.
mod Base
pub mod Same
unfoldable pub use Base.*
