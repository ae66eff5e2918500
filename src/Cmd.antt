-- ===== src/Cmd.antt =====
-- cmd/weron/cmd: the checks of the flags in front of the adapters and of the management client.
pub mod Adapters
pub mod Interrupt
pub mod Join
pub mod Serve
