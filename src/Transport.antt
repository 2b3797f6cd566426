-- ===== src/Transport.antt =====
-- packages/evoid-transport/evoid_transport/__init__.py: the UDP transport.
pub mod Bytes
pub mod Packet
pub mod Port
pub mod Server
pub mod Tracker
