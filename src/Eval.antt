-- ===== src/Eval.antt =====
-- The evaluator: eval.go, eval_applicator.go, eval_validation.go, eval_unevaluated.go.
pub mod Types
pub mod Paths
pub mod Equal
pub mod Report
pub mod Scope
pub mod Walk
pub mod Combine
pub mod Objects
pub mod Arrays
pub mod Asserts
pub mod Unique
pub mod Run
pub mod Ledger
pub mod Guarantees
pub mod Escapes
pub mod Negation
mod Tests
