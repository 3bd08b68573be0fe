-- ===== src/Core.antt =====
-- Country codes, permissions and the rate limit (backend/app/core, backend/app/tasks/access.py).
mod Tests
pub mod Countries
pub mod Permissions
pub mod PermissionCache
pub mod RateLimit
