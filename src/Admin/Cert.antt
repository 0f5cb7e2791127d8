-- ===== src/Admin/Cert.antt =====
-- adminPage/cert/index.js and its copy in a tab, adminPage/protectionCert/cert.js: certificates.
pub mod Form
pub mod Dialogs
pub mod Requests
pub mod Tab
pub mod Panels
pub mod Saves
pub mod Copies
