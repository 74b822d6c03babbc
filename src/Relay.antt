-- ===== src/Relay.antt =====
-- components/relay_ctrl/src/relay_ctrl.c, the only code that switches relays.
pub mod State
pub mod Commit
pub mod Notify
pub mod Switch
pub mod Update
pub mod Tick
pub mod Boot
pub mod Frame
pub mod Pairs
pub mod Effects
pub mod Fire
pub mod FireWaiting
pub mod Exclusive
pub mod Mirror
pub mod Limits
pub mod Timed
pub mod Adopt
pub mod Restore
pub mod Resume
pub mod Runs
