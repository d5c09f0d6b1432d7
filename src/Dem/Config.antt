-- ===== src/Dem/Config.antt =====
-- The configuration of targets (src/dem/config.c): what the REST interface's operations on ports,
-- subsystems, namespaces and hosts change in the lists, and what they send to the endpoint.
pub mod Oob
pub mod Remote
pub mod Find
pub mod Result
pub mod Namespaces
pub mod Ports
pub mod Subsystems
pub mod Hosts
pub mod Targets
pub mod Managed
mod Tests
