-- ===== src/Json.antt =====
-- A value that `json.loads` returns: Python's None, bool, int, float, str, list and dict.
mod Defs
mod Codec
pub mod Equality
pub use Defs.*
pub use Codec.*
