-- ===== src/SwitchBank.antt =====
-- components/switch_bank: the payloads of PGN 127501 and 127502, switch_bank_pgn.c.
pub mod Pgn
mod Fields
pub mod Payload
