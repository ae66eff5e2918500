-- ===== src/Conn.antt =====
-- pkg/wrtcconn: the adapter that connects peers through the signaler, and the one that agrees on
-- names on top of it.
pub mod Negotiation
pub mod Ice
pub mod Signaling
pub mod Named
pub mod Reconnecting
