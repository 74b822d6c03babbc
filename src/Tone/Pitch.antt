-- ===== src/Tone/Pitch.antt =====
-- The pitch of a note, whatever octave the text asks for.
use signalk_esp_os_8relay.Base.{
  ℕ, ◌<◌, ◌≤◌, ◌≡◌, refl, arith, Bool-cases, inl, inr, if◌then◌else◌, Bool, true, false, ◌&&◌, ltb,
  leb, some,
}
use signalk_esp_os_8relay.Base.Below.{all_below, below-all_below}
use signalk_esp_os_8relay.Tone.Rtttl.{note_freq_hz, semitone_at, semitone_of, tolower, octave_max}

in_range : ℕ → Bool
in_range f = leb 16 f && leb f 8372

pitches : Bool → ℕ → Bool
pitches sharp i = all_below 9 (λ octave. in_range (note_freq_hz i sharp octave))

table : (sharp : Bool) → all_below 12 (pitches sharp) ≡ true
unfolding all_below pitches in_range note_freq_hz
table true = refl
table false = refl

-- An octave beyond OCTAVE_MAX plays as that one.
capped :
    (i : ℕ) (sharp : Bool) (octave : ℕ)
    → note_freq_hz i sharp octave
      ≡ note_freq_hz i sharp (if ltb octave octave_max then octave else octave_max)
unfolding note_freq_hz
capped i sharp octave = elim (Bool-cases (ltb octave octave_max)) [
  | inl e ↦ simp e refl
  | inr e ↦ simp e refl
]

small_pitch :
    (i : ℕ) (sharp : Bool) (octave : ℕ)
    → i < 12
    → octave < 9
    → (16 ≤ note_freq_hz i sharp octave) × (note_freq_hz i sharp octave ≤ 8372)
unfolding pitches in_range
small_pitch i sharp octave h g =
    let row = below-all_below 12 (pitches sharp) i (table sharp) h in
    let cell = below-all_below 9 (λ o. in_range (note_freq_hz i sharp o)) octave row g in
    ground (arith, cell)

semitone_bound : (c i : ℕ) → semitone_at c ≡ some i → i < 12
unfolding semitone_at
semitone_bound c i h = ground (arith, h)

-- For every letter that names a note, with or without a sharp, and in any octave, the pitch is from
-- 16 to 8372 Hz.
pub note_freq_hz-range :
    (letter i : ℕ) (sharp : Bool) (octave : ℕ)
    → semitone_of letter ≡ some i
    → (16 ≤ note_freq_hz i sharp octave) × (note_freq_hz i sharp octave ≤ 8372)
unfolding semitone_of
note_freq_hz-range letter i sharp octave known =
    let low : i < 12 = semitone_bound (tolower letter) i known in
    let within : (if ltb octave octave_max then octave else octave_max) < 9 = ground arith in
    rw (capped i sharp octave)
      (small_pitch i sharp (if ltb octave octave_max then octave else octave_max) low within)
