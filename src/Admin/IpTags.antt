-- ===== src/Admin/IpTags.antt =====
-- The editor of a list of addresses, on two pages: adminPage/denyAllow/index.js and, with a type and other
-- names of its elements, adminPage/protectionCert/denyAllow.js.
pub mod Addresses
pub mod Editor
pub mod Dialogs
pub mod Protection
pub mod Invariants
pub mod Reach
pub mod Saves
pub mod Reload
