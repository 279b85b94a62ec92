-- ===== src/Middleware.antt =====
-- middleware and internal/i18n: what runs before a handler, and what it leaves for the handler in
-- the request's context.
mod Tests
pub mod Counter
pub mod Counts
pub mod Context
pub mod Clients
pub mod Zones
pub mod Dates
pub mod Urls
pub mod Chain
pub mod Detected
pub mod Guards
