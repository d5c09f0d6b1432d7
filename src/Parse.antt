-- ===== src/Parse.antt =====
-- src/common/parse.c: the reader of `tag = value` lines, and the parser of addresses.
pub mod Stream
pub mod Line
pub mod Resync
pub mod Progress
pub mod Accept
pub mod Addr
pub mod Dotted
pub mod Names
pub mod Decimal
mod Tests
