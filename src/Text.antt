-- ===== src/Text.antt =====
-- Go strings as lists of bytes, with the operations of `strings`, `unicode` and `range` over a
-- string that the repository's packages use.
mod Strings
mod Runes
pub mod Split
pub mod Decimal
pub mod Trim
pub mod Integer
unfoldable pub use Strings.*
unfoldable pub use Runes.*
