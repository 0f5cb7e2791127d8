-- ===== src/Regex.antt =====
-- Regular expressions of JavaScript without the flags `m`, `u` and `y`, as a syntax tree and a backtracking
-- matcher in continuation-passing style, the way the language defines them. A regex literal of the
-- sources is a value of `Regex`, written part by part; the flag `i` is written into its classes.
pub mod Syntax
pub mod Matcher
pub mod Search
pub mod Sound
pub mod Pieces
pub mod Leads
pub mod Complete
pub mod Anchored
unfoldable pub use Syntax.*
unfoldable pub use Matcher.*
unfoldable pub use Search.*
