-- ===== src/Dns.antt =====
-- interactsh-srv/oobsrv/dns.go: the DNS service.
pub mod Acme
pub mod Zone
pub mod Answer
pub mod Content
pub mod Handle
pub mod Delivery
mod Tests
