-- ===== src/Github.antt =====
-- service/github: the pages of users and repositories.
pub mod Names
pub mod Cards
pub mod Page
pub mod Upstream
pub mod Private
pub mod Repositories
pub mod Pages
mod Tests
