-- ===== src/Endpoint/Configfs.antt =====
-- The operations of a target over the kernel's configfs (src/endpoint/configfs.c).
pub mod Tree
pub mod Calls
pub mod Reset
pub mod Spec
pub mod Home
pub mod Single
pub mod Port
pub mod Walk
pub mod Sound
pub mod Served
mod Tests
