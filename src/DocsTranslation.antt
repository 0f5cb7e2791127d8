-- ===== src/DocsTranslation.antt =====
-- scripts/translate-docs.js: machine translation of markdown.
pub mod Patterns
pub mod Protect
pub mod Lines
pub mod Safety
pub mod Nav
pub mod Engines
pub mod Google
pub mod GoogleAnswers
pub mod TranslateFile
pub mod Repair
pub mod RoundTrip
pub mod Alignment
pub mod Kept
pub mod Targets
pub mod Files
pub mod NavLines
pub mod Cli
pub mod Listed
pub mod Workers
pub mod Main
pub mod Pool
mod Tests
