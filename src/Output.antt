-- ===== src/Output.antt =====
-- The output formats: output.go.
pub mod Flat
pub mod Tree
pub mod Leaves
pub mod Validity
mod Tests
