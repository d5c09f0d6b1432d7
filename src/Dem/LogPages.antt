-- ===== src/Dem/LogPages.antt =====
-- src/dem/logpages.c and `get_logpages` of src/common/logpages.c: fetching the discovery log of a
-- target and merging it into the target's subsystems.
pub mod Fetch
pub mod Save
pub mod Match
pub mod Keep
pub mod Lookup
pub mod Recorded
pub mod Fresh
pub mod Distinct
pub mod Refresh
pub mod Sound
mod Tests
