-- ===== src/Decode.antt =====
-- The decoding of JSON documents: fastjson.go.
pub mod Scan
pub mod Fast
pub mod Kept
pub mod Loops
pub mod Counted
pub mod Shorter
pub mod Fed
mod Tests
