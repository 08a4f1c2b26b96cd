-- ===== src/Reflection.antt =====
-- Reflection sections: the format, the view and the end of the serializer.
pub mod Format
pub mod Section
pub mod View
pub mod Decode
pub mod Builder
pub mod Slang
pub mod Walk
pub mod EndToEnd
