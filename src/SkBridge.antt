-- ===== src/SkBridge.antt =====
-- components/switch_bank: the SignalK side of the switch bank, sk_bridge.c. The lock is left out,
-- each call being one step; the calls of the SDK's SignalK client are collected in a list.
pub mod Text
pub mod Publish
pub mod State
pub mod View
pub mod Shown
pub mod Kept
pub mod Taken
pub mod Refresh
pub mod Server
pub mod Sync
pub mod Lost
pub mod Escape
pub mod Paths
pub mod Put
