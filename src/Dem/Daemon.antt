-- ===== src/Dem/Daemon.antt =====
-- src/dem/daemon.c: the discovery queues that are made at the start, and the keep-alives that are
-- sent afterwards.
pub mod Queues
pub mod Alive
pub mod Silent
pub mod Periodic
pub mod Subsys
mod Tests
