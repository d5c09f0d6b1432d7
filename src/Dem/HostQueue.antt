-- ===== src/Dem/HostQueue.antt =====
-- The queue between the listener's thread and the service thread (src/dem/pseudo_target.c).
pub mod Ring
pub mod Fifo
mod Tests
