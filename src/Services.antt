-- ===== src/Services.antt =====
-- The services between the tables and the engine (backend/app/services).
mod Tests
pub mod PhysicalItems
pub mod Entries
pub mod Errors
pub mod ThirdParty
pub mod OrderEdit
pub mod Snapshots
