-- ===== src/Tests.antt =====
-- The theorems at concrete inputs.
mod Stores
mod Signaling
mod Messages
mod Adapters
mod Commands
mod Managing
mod Connecting
mod Meeting
mod Database
mod Routes
mod Relaying
mod Naming
mod Reconnecting
mod Overlays
mod Measuring
mod Opening
mod Interrupts
mod Kicking
