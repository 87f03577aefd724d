-- ===== src/Patches.antt =====
-- scripts/generate-patches.py: texts and lines (Text), the regular expressions (Regex), the engine
-- that uncomments instrumentation blocks (Engine), and the patch files (Files).
pub mod Text
pub mod Regex
pub mod Code
pub mod Engine
pub mod Files
pub mod Dependencies
pub mod Services
