-- ===== src/Dem/Discovery.antt =====
-- The discovery controller of src/dem/pseudo_target.c: the commands of the hosts, and the log pages
-- that each host may see.
pub mod Command
pub mod Pages
pub mod Visible
pub mod Request
pub mod Answer
pub mod Service
mod Tests
