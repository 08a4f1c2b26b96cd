-- ===== src/Reflection/Format.antt =====
-- The reflection section of a blob entry: its tables (include/slangmake.hpp, namespace `fmt`).
pub mod Rows
pub mod Attributes
pub mod Types
pub mod Ranges
pub mod Variables
pub mod EntryPoints
pub mod Header
