-- ===== src/Twse.antt =====
-- service/stock/twse/cached_walkback.go: the caches in front of the exchange's daily reports, each
-- a `TtlCache` and a rule for its keys and times to live.
pub mod Calendar
pub mod WalkBack
pub mod Daily
pub mod Direct
pub mod Latest
pub mod Fetching
pub mod Dumps
pub mod Holders
pub mod Futures
pub mod Partial
pub mod Drift
mod Tests
