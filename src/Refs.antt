-- ===== src/Refs.antt =====
-- References and pointers: ref.go.
pub mod Pointer
pub mod Tokens
pub mod Locations
