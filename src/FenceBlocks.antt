-- ===== src/FenceBlocks.antt =====
-- scripts/fence-code-blocks.js: quoted blocks that hold code become fenced code.
pub mod Patterns
pub mod Blocks
pub mod Classify
pub mod Scan
pub mod Render
pub mod Convert
pub mod Cli
pub mod Run
pub mod Writes
pub mod Slices
pub mod Fences
pub mod Nesting
pub mod Arguments
mod Tests
