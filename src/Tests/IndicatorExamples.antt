-- ===== src/Tests/IndicatorExamples.antt =====
-- The Morse messages of indicator_logic.c.
use signalk_esp_os_8relay.Base.{
  ℕ, ◌+◌, ◌%◌, ◌^◌, ◌<◌, ◌≡◌, refl, arith, true, false, List, [], ◌∷◌, length, get_or,
}
use signalk_esp_os_8relay.Indicator.{Segment, morse_encode, morse_tone_at}
use signalk_esp_os_8relay.Indicator.Morse.{waveform, morse_tone_at-waveform}

abbrev tone : ℕ → Segment
tone n = record { on = true; units = n }

abbrev gap : ℕ → Segment
gap n = record { on = false; units = n }

-- "ae t": dot dash, dot, dash.
abbrev message : List Segment
message = tone 1 ∷ gap 1 ∷ tone 3 ∷ gap 3 ∷ tone 1 ∷ gap 7 ∷ tone 3 ∷ []

message_lem : morse_encode (b'a' ∷ b'e' ∷ b' ' ∷ b't' ∷ []) 20 ≡ message
unfolding morse_encode
message_lem = refl

cut_off : morse_encode (b'a' ∷ b'e' ∷ []) 2 ≡ tone 1 ∷ gap 1 ∷ []
unfolding morse_encode
cut_off = refl

fits : length (waveform message 10) + 70 < 2 ^ 32
unfolding waveform
fits = omega arith

morse_tone_at-waveform_example :
    morse_tone_at message 10 70 500
    ≡ get_or (waveform message 10) (500 % (length (waveform message 10) + 70)) false
morse_tone_at-waveform_example = morse_tone_at-waveform message 10 70 500 fits
