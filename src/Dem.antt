-- ===== src/Dem.antt =====
-- The distributed endpoint manager (src/dem): its lists of targets and groups, the log pages that it
-- collects, the discovery controller that hands them out, and its periodic work.
pub mod State
pub mod Config
pub mod LogPages
pub mod Notify
pub mod Groups
pub mod Discovery
pub mod HostQueue
pub mod Daemon
