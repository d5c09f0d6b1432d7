-- ===== src/Dem/Notify.antt =====
-- The notification functions of src/dem/config.c: which hosts that asked for asynchronous events
-- are told of a change, and the sending.
pub mod Lists
pub mod Once
pub mod Access
pub mod Send
mod Tests
