-- ===== src/Engine.antt =====
-- The restock calculation (backend/app/engine).
mod Tests
pub mod Fraction
pub mod Zipcode
pub mod Allocate
pub mod Split
pub mod Context
pub mod CountryQty
pub mod SaleDays
pub mod Total
pub mod Urgency
pub mod Velocity
pub mod Warnings
pub mod SkuMapping
pub mod Runner
