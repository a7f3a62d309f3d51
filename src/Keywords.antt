-- ===== src/Keywords.antt =====
-- Drafts and the registry of keywords: draft.go and keywords.go.
pub mod Drafts
pub mod Registry
pub mod Lookup
mod Tests
