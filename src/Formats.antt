-- ===== src/Formats.antt =====
-- The formats: formats.go and punycode.go.
pub mod Types
pub mod Times
pub mod Durations
pub mod Clocks
pub mod Pointers
pub mod Uris
pub mod Templates
pub mod Rounds
pub mod Grammar
pub mod Punycode
pub mod Hosts
pub mod IdnHosts
pub mod Encoding
pub mod Runes
pub mod Emails
pub mod Builtin
pub mod Ascii
pub mod Inclusions
pub mod Names
pub mod Failures
pub mod Reports
mod Tests
