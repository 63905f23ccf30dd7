-- ===== src/Text.antt =====
-- The operations on strings of the Go standard library that the program uses.
mod Base
mod Pieces
pub mod SplitJoin
pub mod SplitPair
pub mod Sort
unfoldable pub use Base.*
unfoldable pub use Pieces.*
