-- ===== src/Admin/BlockEditor.antt =====
-- adminPage/common/blockEditor.js: a raw editor of a block of the configuration, shared by pages.
pub mod Draft
pub mod Posts
pub mod RoundTrip
pub mod Stale
pub mod Carets
mod Tests
