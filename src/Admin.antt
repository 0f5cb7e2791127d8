-- ===== src/Admin.antt =====
-- The pages of the administration, src/main/resources/static/js/adminPage: what their scripts do to the
-- page and which requests they send.
pub mod Page
pub mod Html
pub mod IpTags
pub mod Asn
pub mod Cert
pub mod BlockEditor
mod Tests
