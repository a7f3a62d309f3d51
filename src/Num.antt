-- ===== src/Num.antt =====
-- Exact decimals (num.go).
pub mod Digits
pub mod Decimal
pub mod Parse
pub mod Compare
pub mod Divide
pub mod Exact
pub mod Divisible
pub mod Carry
pub mod Order
pub mod Factors
pub mod Twos
pub mod Multiples
pub mod Divisor
mod Tests
