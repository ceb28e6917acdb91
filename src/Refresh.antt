-- ===== src/Refresh.antt =====
-- UpstreamRefresher of internal/application/upstream_refresh.go: the import of a subscription.
mod Tests
pub mod Store
pub mod Fetch
pub mod Import
pub mod Prune
pub mod Keeps
pub mod Lookups
pub mod Prepared
pub mod Identified
pub mod Manual
pub mod Linked
pub mod Grown
pub mod Listed
pub mod Entered
pub mod Passed
pub mod Unlinked
pub mod Synced
pub mod Unavailable
pub mod Recorded
pub mod Runner
pub mod Reported
pub mod Disabled
