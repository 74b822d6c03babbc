-- ===== src/Tone.antt =====
-- components/espos_tone: the buzzer's tunes. A text is the list of its bytes up to the final zero,
-- and a pointer into it is the rest of the text.
pub mod Rtttl
pub mod Player
pub mod Library
pub mod Ends
pub mod Pass
pub mod Pitch
