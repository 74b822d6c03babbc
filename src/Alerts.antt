-- ===== src/Alerts.antt =====
-- components/switch_bank/src/n2k_alerts.c: the alerts of the inputs on the NMEA 2000 bus. State holds
-- the settings, the channels and the messages about one of them, Tick n2k_alerts_tick() and Response
-- n2k_alerts_on_response(); Follow, Trips and Ack are proofs.
pub mod State
pub mod Tick
pub mod Response
pub mod Follow
pub mod Trips
pub mod Ack
