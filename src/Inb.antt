-- ===== src/Inb.antt =====
-- The in-band management messages between the DEM and an endpoint: what src/dem/config.c builds,
-- sends and reads back.
pub mod Build
pub mod Message
pub mod Fields
pub mod Reads
pub mod Port
pub mod Delivery
pub mod Send
pub mod Senders
pub mod Config
pub mod Plan
pub mod Configured
pub mod Merge
pub mod Devices
pub mod Xports
mod Tests
