-- ===== src/N2kBridge.antt =====
-- components/switch_bank: the NMEA 2000 side of the switch bank, n2k_bridge.cpp. The NMEA 2000
-- library is outside: the messages it delivers are arguments, those handed to it a list.
pub mod State
pub mod Start
pub mod Control
pub mod Rounds
pub mod Fresh
