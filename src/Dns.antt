-- ===== src/Dns.antt =====
-- service/dns and service/dns/resolver: the page of a host's records and the lookup behind it. The
-- children go from the data to the page: addresses, the records, the nine queries, the lookup that
-- runs them together, host names, and the page.
mod Tests
pub mod Addresses
pub mod Records
pub mod Queries
pub mod Names
pub mod Lookup
pub mod Schedules
pub mod Aggregate
pub mod Success
pub mod Filter
pub mod Errors
pub mod Captions
pub mod Safety
pub mod Hosts
pub mod Page
pub mod HostNames
pub mod Numbers
pub mod Pages
