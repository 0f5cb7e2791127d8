-- ===== src/Admin/Asn.antt =====
-- adminPage/protectionCert/asnCatalog.js: the catalog of networks, the profile of the protection, and the
-- intents to block a network.
pub mod Gates
pub mod Tables
pub mod Requests
pub mod Same
pub mod Reach
pub mod Paging
