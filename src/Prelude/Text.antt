-- ===== src/Prelude/Text.antt =====
-- Go strings as lists of bytes.
pub mod Equality
pub mod Search
pub mod Space
pub mod Laws
unfoldable pub use Equality.*
