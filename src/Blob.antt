-- ===== src/Blob.antt =====
-- The packed `.bin` blob (src/slangmake_blob.cpp).
pub mod Format
pub mod Codecs
pub mod Writer
pub mod Reader
pub mod Placed
pub mod Padding
pub mod Sharing
pub mod EntryPlaces
pub mod LaidOut
pub mod Words
pub mod Chunks
pub mod IndexPool
pub mod DepTable
pub mod Image
pub mod Parts
pub mod ReadEntry
pub mod ReadBack
pub mod Rebind
pub mod RoundTrip
pub mod Safety
pub mod Rejected
pub mod Lookup
