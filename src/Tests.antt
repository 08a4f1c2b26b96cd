-- ===== src/Tests.antt =====
-- The theorems at concrete inputs, and runs of the model.
pub mod Blobs
pub mod Texts
pub mod Shader
pub mod Sections
pub mod Compiles
pub mod Directories
pub mod Reuse
pub mod Runs
