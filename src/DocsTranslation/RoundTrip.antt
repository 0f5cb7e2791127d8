-- ===== src/DocsTranslation/RoundTrip.antt =====
-- `protect` and then `restore` of scripts/translate-docs.js, on lines without `@`.
mod Walk
mod Links
mod Masking
mod Scanning
mod Restoring
mod Counting
pub mod Placeholders
