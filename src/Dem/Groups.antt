-- ===== src/Dem/Groups.antt =====
-- The groups of src/dem/config.c: which hosts may see which targets.
pub mod Ops
pub mod Requests
pub mod Member
pub mod Deleted
mod Tests
