-- ===== src/Oobclient.antt =====
-- The client module, oobclient/.
pub mod Response
pub mod Cid
pub mod Generated
pub mod Digits
pub mod Decrypt
pub mod Poll
pub mod Delivery
pub mod Registration
pub mod Servers
pub mod Lifecycle
pub mod Once
pub mod Ends
pub mod Options
pub mod Session
pub mod Domain
pub mod Connected
mod Tests
