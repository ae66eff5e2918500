-- ===== src/Ip.antt =====
-- pkg/wrtcip/wrtcip.go: names, addresses, the device, and the peers that packets are sent to.
pub mod Wait
pub mod Names
pub mod Routing
pub mod Device
