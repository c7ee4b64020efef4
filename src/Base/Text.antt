-- ===== src/Base/Text.antt =====
-- Go's `string` as the list of its code points, and what the program uses of package strings.
-- Texts are taken to be valid UTF-8; case is folded for the ASCII letters.
mod Defs
pub mod Equal
pub mod Cut
pub mod Trim
pub mod Lines
pub mod Search
pub mod Fields
unfoldable pub use Defs.*
