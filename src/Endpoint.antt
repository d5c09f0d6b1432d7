-- ===== src/Endpoint.antt =====
-- The endpoint manager's controller (src/endpoint/pseudo_target.c): the management messages that it
-- carries out and answers, over the operations of a target.
pub mod Ops
pub mod Config
pub mod Report
pub mod Request
pub mod Expected
pub mod Answer
pub mod Features
pub mod Rest
pub mod Configfs
mod Tests
